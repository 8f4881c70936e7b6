-- ===== src/Qos/Rewriting.antt =====
-- What an update of the traffic shaping configuration is to make of the table and to answer.
use ngfw_sh.Prelude.{
  both, not, eqb, or_else, Given, ◌&&◌, Takes, Takes-or_else, ◌↔◌, ◌≢◌, Bool, Option, none, some,
  Bool-cases, filter, All, ℕ, ◌≡◌, refl, sym, ap, ◌⊎◌, inl, inr, true, false, List, [], ◌∷◌, arith,
}
use ngfw_sh.Prelude.Pairs.{Pairwise}
use ngfw_sh.Platform.Database.{updated}
use ngfw_sh.Qos.{
  missing, bit_or_else, QosRow, QosConfig, qos_config, UpdateFields, no_fields, set_clauses,
  the_row,
}

-- No field is given.
abbrev pub IsBlank : UpdateFields → Type 0
IsBlank u =
    (u.enabled ≡ none)
    × (u.algorithm ≡ none)
    × (u.wan_upload_kbps ≡ none)
    × (u.wan_download_kbps ≡ none)

abbrev TakesBit : Option Bool → ℕ → ℕ → Type 0
TakesBit none old new = new ≡ old
TakesBit (some true) old new = new ≡ 1
TakesBit (some false) old new = new ≡ 0

-- Row 1 after an update has the given fields as they were given, the others as they were, and the time.
pub record IsRewritten (u : UpdateFields) (now : ℕ) (old new : QosRow) : Type 0 where
  pub id : new.id ≡ old.id
  pub enabled : TakesBit u.enabled old.enabled new.enabled
  pub algorithm : Takes u.algorithm old.algorithm new.algorithm
  pub wan_upload_kbps : Takes u.wan_upload_kbps old.wan_upload_kbps new.wan_upload_kbps
  pub wan_download_kbps : Takes u.wan_download_kbps old.wan_download_kbps new.wan_download_kbps
  pub updated_at : new.updated_at ≡ now

-- A row before and after: every row but row 1 stays.
abbrev pub Rewrites : UpdateFields → ℕ → QosRow → QosRow → Type 0
Rewrites u now old new = ((old.id ≡ 1) × IsRewritten u now old new) ⊎ ((old.id ≢ 1) × (new ≡ old))

-- What an answer shows of a row.
pub record Shows (r : QosRow) (c : QosConfig) : Type 0 where
  pub id : c.id ≡ r.id
  pub enabled : c.enabled ≡ true ↔ r.enabled ≢ 0
  pub algorithm : c.algorithm ≡ r.algorithm
  pub wan_upload_kbps : c.wan_upload_kbps ≡ r.wan_upload_kbps
  pub wan_download_kbps : c.wan_download_kbps ≡ r.wan_download_kbps
  pub updated_at : c.updated_at ≡ r.updated_at

-- An answer to an update has the given fields as they were given, and the time.
pub record IsAnswered (u : UpdateFields) (now : ℕ) (c : QosConfig) : Type 0 where
  pub id : c.id ≡ 1
  pub enabled : Given u.enabled c.enabled
  pub algorithm : Given u.algorithm c.algorithm
  pub wan_upload_kbps : Given u.wan_upload_kbps c.wan_upload_kbps
  pub wan_download_kbps : Given u.wan_download_kbps c.wan_download_kbps
  pub updated_at : c.updated_at ≡ now

is_missing : {A : Type 0} (o : Option A) → missing o ≡ true → o ≡ none
is_missing none h = refl
is_missing (some a) h = cc

pub no_fields-IsBlank : (u : UpdateFields) → no_fields u ≡ true → IsBlank u
unfolding no_fields
no_fields-IsBlank u h =
    let (abc, d) =
      both (missing u.enabled && missing u.algorithm && missing u.wan_upload_kbps)
        (missing u.wan_download_kbps) h in
    let (ab, c) = both (missing u.enabled && missing u.algorithm) (missing u.wan_upload_kbps) abc in
    let (a, b) = both (missing u.enabled) (missing u.algorithm) ab in
    (
      is_missing u.enabled a,
      is_missing u.algorithm b,
      is_missing u.wan_upload_kbps c,
      is_missing u.wan_download_kbps d,
    )

IsBlank-no_fields : (u : UpdateFields) → IsBlank u → no_fields u ≡ true
unfolding no_fields
IsBlank-no_fields u (a, b, c, d) = rw (a, b, c, d) refl

TakesBit-bit : (o : Option Bool) (n : ℕ) → TakesBit o n (bit_or_else o n)
TakesBit-bit none n = refl
TakesBit-bit (some true) n = refl
TakesBit-bit (some false) n = refl

set_clauses-IsRewritten :
    (u : UpdateFields) (now : ℕ) (r : QosRow) → IsRewritten u now r (set_clauses u now r)
unfolding set_clauses
set_clauses-IsRewritten u now r = record {
  id = refl;
  enabled = TakesBit-bit u.enabled r.enabled;
  algorithm = Takes-or_else u.algorithm r.algorithm;
  wan_upload_kbps = Takes-or_else u.wan_upload_kbps r.wan_upload_kbps;
  wan_download_kbps = Takes-or_else u.wan_download_kbps r.wan_download_kbps;
  updated_at = refl;
}

pub qos_config-Shows : (r : QosRow) → Shows r (qos_config r)
unfolding qos_config
qos_config-Shows r = record {
  id = refl;
  enabled = (λ h. ground arith, λ h. ground arith);
  algorithm = refl;
  wan_upload_kbps = refl;
  wan_download_kbps = refl;
  updated_at = refl;
}

pub updated-Rewrites :
    (u : UpdateFields) (now : ℕ) (rs : List QosRow)
    → Pairwise (Rewrites u now) rs (updated the_row (set_clauses u now) rs)
updated-Rewrites u now [] = tt
updated-Rewrites u now (r ∷ rs) = elim (Bool-cases (the_row r)) [
  | inl e ↦ rw e (inl (ground arith, set_clauses-IsRewritten u now r), updated-Rewrites u now rs)
  | inr e ↦ rw e (inr (ground arith, refl), updated-Rewrites u now rs)
]

Given-fixed {ℓ} : {A : Type ℓ} (o : Option A) (a : A) → or_else o a ≡ a → Given o a
Given-fixed none a h = tt
Given-fixed (some b) a h = sym h

Given-bit : (o : Option Bool) (n : ℕ) → bit_or_else o n ≡ n → Given o (not (eqb n 0))
Given-bit none n h = tt
Given-bit (some true) n h = ground arith
Given-bit (some false) n h = ground arith

-- The answer that shows a row which the update leaves as it is has what the update gives.
pub settled-IsAnswered :
    (u : UpdateFields) (now : ℕ) (r : QosRow)
    → r.id ≡ 1
    → set_clauses u now r ≡ r
    → IsAnswered u now (qos_config r)
unfolding qos_config set_clauses
settled-IsAnswered u now r one same = record {
  id = one;
  enabled = Given-bit u.enabled r.enabled (ap (λ x. x.enabled) same);
  algorithm = Given-fixed u.algorithm r.algorithm (ap (λ x. x.algorithm) same);
  wan_upload_kbps =
      Given-fixed u.wan_upload_kbps r.wan_upload_kbps (ap (λ x. x.wan_upload_kbps) same);
  wan_download_kbps =
      Given-fixed u.wan_download_kbps r.wan_download_kbps (ap (λ x. x.wan_download_kbps) same);
  updated_at = ap (λ x. x.updated_at) (sym same);
}

pub names_field : (u : UpdateFields) → no_fields u ≡ false → ¬ IsBlank u
names_field u h blank = let all_missing = IsBlank-no_fields u blank in cc

pub none_is_one : (rs : List QosRow) → filter the_row rs ≡ [] → All (λ r. r.id ≢ 1) rs
none_is_one [] h = tt
none_is_one (r ∷ rs) h = elim (Bool-cases (the_row r)) [
  | inl e ↦ let kept : r ∷ filter the_row rs ≡ [] = rw e at h in cc
  | inr e ↦ (ground arith, none_is_one rs (rw e at h))
]
