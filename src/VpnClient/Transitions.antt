-- ===== src/VpnClient/Transitions.antt =====
-- The states of a profile, and whose requests change them.
use mathlib.Core.List.{mem-cons, not-mem-nil}
use mathlib.Core.Logic.Or
use text.Mathlib.TextEquality.{eq_iff}
use ngfw_sh.Prelude.{
  ◌==◌, Option-cases, filter, any, All, All-prop, All-map, first_some, first_none, All-of_any,
  any_of_mem, ℕ, String, ◌≡◌, refl, ◌∙◌, ◌⊎◌, inl, inr, Bool, true, false, none, some, List, [],
  ◌∷◌, Mem, arith,
}
use ngfw_sh.Platform.Http.{Refusal, Reply, Exception, Outcome, ok, refused, value, thrown}
use ngfw_sh.Platform.Database.{updated, Database}
use ngfw_sh.VpnClient.{
  VpnProfileStatus, VpnClientProfile, StatusReply, same_status, owned_profile, has_id,
  start_connecting, set_disconnected, Profiles, connect, disconnect, StatusRequest, ask, connected,
  disconnected, connects, disconnects,
}

-- The primary key: no two rows share an id.
abbrev pub Distinct : List VpnClientProfile → Type 0
Distinct [] = Unit
Distinct (p ∷ ps) = (any (λ q. p.id == q.id) ps ≡ false) × Distinct ps

-- The one change that a request may make to a row.
abbrev pub after : StatusRequest → VpnClientProfile → VpnClientProfile
after (connects now) p = start_connecting now p
after disconnects p = set_disconnected p

-- The status at which a request is refused.
abbrev pub refused_at : StatusRequest → VpnProfileStatus
refused_at (connects now) = connected
refused_at disconnects = disconnected

-- With distinct ids, an id that names a row of the user's names no other row.
owned-eq-has_id :
    (id user : String) (ps : List VpnClientProfile) {p : VpnClientProfile}
    → Distinct ps
    → Mem p ps
    → owned_profile id user p ≡ true
    → All (λ q. has_id id q ≡ owned_profile id user q) ps
owned-eq-has_id id user [] d m e = absurd (not-mem-nil m)
owned-eq-has_id id user (q ∷ ps) {p} (d, ds) m e =
    Or.elim (All-prop (λ q. has_id id q ≡ owned_profile id user q) (λ y. hlevel) (q ∷ ps))
      (mem-cons.0 m)
      (λ same.
        let own : owned_profile id user q ≡ true = rw (← same) e in
        (
          ground arith,
          All-map (λ r h. ground (arith, own, eq_iff q.id r.id, eq_iff q.id id, eq_iff r.id id)) ps
              (All-of_any (λ r. q.id == r.id) ps d),
        ))
      λ later. (
        ground (
          arith,
          any_of_mem (λ r. q.id == r.id) ps later d,
          eq_iff q.id p.id,
          eq_iff q.id id,
          eq_iff p.id id,
        ),
        owned-eq-has_id id user ps ds later e,
      )

updated-eq :
    (p q : VpnClientProfile → Bool) (f : VpnClientProfile → VpnClientProfile)
    (ps : List VpnClientProfile)
    → All (λ x. p x ≡ q x) ps
    → updated p f ps ≡ updated q f ps
updated-eq p q f [] h = refl
updated-eq p q f (x ∷ ps) (e, h) = ground (arith, updated-eq p q f ps h)

module _ (d1 : Database) where
  open d1 use {rows, select, update, select_lem, update_lem}

  -- Where profiles have distinct ids, a request that is accepted is for a profile of the user's,
  -- in a state that allows it, and changes that profile alone.
  ask_accepted :
      (user id : String) (q : StatusRequest) (s : Profiles d1) {r : StatusReply}
      → Distinct (rows s)
      → (ask d1 user id q s).0 ≡ value (ok 200 r)
      → ((p : VpnClientProfile) × Mem p (rows s)
          × (owned_profile id user p ≡ true)
          × (same_status p.status (refused_at q) ≡ false))
        × (rows (ask d1 user id q s).1 ≡ updated (owned_profile id user) (after q) (rows s))
  unfolding ask connect disconnect
  ask_accepted user id q s {r = r} d done = elim (Option-cases (select (owned_profile id user) s)) [
    | inl e ↦ absurd (rejected q e done)
    | inr ([], e) ↦ absurd (missing q e done)
    | inr (p ∷ ps, e) ↦
        let found =
          first_some (owned_profile id user) (rows s) (select_lem (owned_profile id user) s e)
            refl in
        let (at, t, written, state) = present q p ps e done in
        (
          (p, found.0, found.1, at),
          rw state (
              update_lem (has_id id) (after q) s {t' = t} written
              ∙ updated-eq (has_id id) (owned_profile id user) (after q) (rows s)
                  (owned-eq-has_id id user (rows s) d found.0 found.1)),
        )
  ]
    where
      rejected :
          (q : StatusRequest)
          → select (owned_profile id user) s ≡ none
          → (ask d1 user id q s).0 ≡ value (ok 200 r)
          → ⊥
      rejected (connects now) e h = ground arith
      rejected disconnects e h = ground arith

      missing :
          (q : StatusRequest)
          → select (owned_profile id user) s ≡ some []
          → (ask d1 user id q s).0 ≡ value (ok 200 r)
          → ⊥
      missing (connects now) e h = ground arith
      missing disconnects e h = ground arith

      present :
          (q : StatusRequest) (p : VpnClientProfile) (ps : List VpnClientProfile)
          → select (owned_profile id user) s ≡ some (p ∷ ps)
          → (ask d1 user id q s).0 ≡ value (ok 200 r)
          → (same_status p.status (refused_at q) ≡ false)
            × (t : Profiles d1) × (update (has_id id) (after q) s ≡ some t)
            × ((ask d1 user id q s).1 ≡ t)
      present (connects now) p ps e h =
          elim (Option-cases (update (has_id id) (start_connecting now) s)) [
            | inl f ↦ ground arith
            | inr (t, f) ↦ (ground arith, t, f, ground arith)
          ]
      present disconnects p ps e h = elim (Option-cases (update (has_id id) set_disconnected s)) [
        | inl f ↦ ground arith
        | inr (t, f) ↦ (ground arith, t, f, ground arith)
      ]

  -- A request that is refused changes nothing: the user has no profile of that id, or has one in
  -- the state that the request asks for.
  ask_refused :
      (user id : String) (q : StatusRequest) (s : Profiles d1) (status : ℕ) (message : Refusal)
      → (ask d1 user id q s).0 ≡ value (refused status message)
      → ((ask d1 user id q s).1 ≡ s)
        × (((status ≡ 404) × (filter (owned_profile id user) (rows s) ≡ []))
            ⊎ ((status ≡ 409)
                × ((p : VpnClientProfile) × Mem p (rows s)
                    × (owned_profile id user p ≡ true)
                    × (same_status p.status (refused_at q) ≡ true))))
  unfolding ask connect disconnect
  ask_refused user id q s status message h =
      elim (Option-cases (select (owned_profile id user) s)) [
        | inl e ↦ absurd (rejected q e h)
        | inr ([], e) ↦
            let (same, code) = missing q e h in
            (
              same,
              inl (
                code,
                first_none (owned_profile id user) (rows s) (select_lem (owned_profile id user) s e)
                    refl,
              ),
            )
        | inr (p ∷ ps, e) ↦
            let (same, code, at) = present q p ps e h in
            let found =
              first_some (owned_profile id user) (rows s) (select_lem (owned_profile id user) s e)
                refl in
            (same, inr (code, (p, found.0, found.1, at)))
      ]
    where
      rejected :
          (q : StatusRequest)
          → select (owned_profile id user) s ≡ none
          → (ask d1 user id q s).0 ≡ value (refused status message)
          → ⊥
      rejected (connects now) e h = ground arith
      rejected disconnects e h = ground arith

      missing :
          (q : StatusRequest)
          → select (owned_profile id user) s ≡ some []
          → (ask d1 user id q s).0 ≡ value (refused status message)
          → ((ask d1 user id q s).1 ≡ s) × (status ≡ 404)
      missing (connects now) e h = ground arith
      missing disconnects e h = ground arith

      present :
          (q : StatusRequest) (p : VpnClientProfile) (ps : List VpnClientProfile)
          → select (owned_profile id user) s ≡ some (p ∷ ps)
          → (ask d1 user id q s).0 ≡ value (refused status message)
          → ((ask d1 user id q s).1 ≡ s)
            × (status ≡ 409)
            × (same_status p.status (refused_at q) ≡ true)
      present (connects now) p ps e h = ground arith
      present disconnects p ps e h = ground arith

  ok_status :
      (q : StatusRequest) (id user : String) (s : Profiles d1) {status : ℕ} {answer : StatusReply}
      → (ask d1 user id q s).0 ≡ value (ok status answer)
      → status ≡ 200
  unfolding ask connect disconnect
  ok_status (connects now) id user s h = elim (Option-cases (select (owned_profile id user) s)) [
    | inl e ↦ ground arith
    | inr ([], e) ↦ ground arith
    | inr (p ∷ ps, e) ↦ ground arith
  ]
  ok_status disconnects id user s h = elim (Option-cases (select (owned_profile id user) s)) [
    | inl e ↦ ground arith
    | inr ([], e) ↦ ground arith
    | inr (p ∷ ps, e) ↦ ground arith
  ]

  thrown_unchanged :
      (q : StatusRequest) (id user : String) (s : Profiles d1) {f : Exception}
      → (ask d1 user id q s).0 ≡ thrown f
      → (ask d1 user id q s).1 ≡ s
  unfolding ask connect disconnect
  thrown_unchanged (connects now) id user s h =
      elim (Option-cases (select (owned_profile id user) s)) [
        | inl e ↦ ground arith
        | inr ([], e) ↦ ground arith
        | inr (p ∷ ps, e) ↦ ground arith
      ]
  thrown_unchanged disconnects id user s h =
      elim (Option-cases (select (owned_profile id user) s)) [
        | inl e ↦ ground arith
        | inr ([], e) ↦ ground arith
        | inr (p ∷ ps, e) ↦ ground arith
      ]

  -- What an answer to a request says of the profiles before it and after it.
  abbrev pub Explains :
      String → String → StatusRequest → Profiles d1 → Outcome (Reply StatusReply) → Type 0
  Explains user id q s (value (ok status answer)) =
      ((p : VpnClientProfile) × Mem p (rows s)
        × (owned_profile id user p ≡ true)
        × (same_status p.status (refused_at q) ≡ false))
      × (rows (ask d1 user id q s).1 ≡ updated (owned_profile id user) (after q) (rows s))
  Explains user id q s (value (refused status message)) =
      ((ask d1 user id q s).1 ≡ s)
      × (((status ≡ 404) × (filter (owned_profile id user) (rows s) ≡ []))
          ⊎ ((status ≡ 409)
              × ((p : VpnClientProfile) × Mem p (rows s)
                  × (owned_profile id user p ≡ true)
                  × (same_status p.status (refused_at q) ≡ true))))
  Explains user id q s (thrown e) = (ask d1 user id q s).1 ≡ s

  -- Where profiles have distinct ids, a request to connect or to disconnect that is accepted is for a
  -- profile of the user's in a state that allows it, and changes that profile alone; one that is refused
  -- changes nothing, and the user has no profile of that id (404) or has one in the state that the request
  -- asks for (409); and one that fails with an exception changes nothing.
  pub ask-Explains :
      (user id : String) (q : StatusRequest) (s : Profiles d1)
      → Distinct (rows s)
      → Explains user id q s (ask d1 user id q s).0
  ask-Explains user id q s d = explained (ask d1 user id q s).0 refl
    where
      explained :
          (o : Outcome (Reply StatusReply)) → (ask d1 user id q s).0 ≡ o → Explains user id q s o
      explained (value (ok status answer)) e =
          ask_accepted user id q s {r = answer} d (rw (ok_status q id user s e) at e)
      explained (value (refused status message)) e = ask_refused user id q s status message e
      explained (thrown f) e = thrown_unchanged q id user s e
