-- ===== src/Auth/Tests.antt =====
-- packages/schema/src/middleware/auth.ts with a namespace in memory.
use Prim.Native.Char.{code}
use text.Mathlib.TextEquality.{Char-path}
use ngfw_sh.Prelude.{
  ltb, if◌then◌else◌, ℕ, zero, suc, ◌≤◌, String, ◌≡◌, refl, sym, ap, ◌≢◌, ◌⊎◌, Option, none, some,
  List, [], ◌∷◌, arith,
}
use ngfw_sh.Prelude.Hex.{AreBytes}
use ngfw_sh.Platform.Http.{error, Reply, Outcome, ok, refused, value}
use ngfw_sh.Platform.Memory.{memory_kv}
use ngfw_sh.Auth.{bearer, Session, clerk_auth, serve_requests}
use ngfw_sh.Auth.Soundness.{Vouched, IsDigest}
use ngfw_sh.Auth.Sessions.{clerk_auth_sound, clerk_auth_revoked}

-- A digest without collisions: the codes of a text in unary.
abbrev ones : ℕ → List ℕ → List ℕ
ones zero bs = 0 ∷ bs
ones (suc n) bs = 1 ∷ ones n bs

abbrev unary : String → List ℕ
unary String.[] = []
unary (String.◌∷◌ c s) = ones (code c) (unary s)

ones-AreBytes : (n : ℕ) (bs : List ℕ) → AreBytes bs → AreBytes (ones n bs)
ones-AreBytes zero bs h = (omega arith, h)
ones-AreBytes (suc n) bs h = (omega arith, ones-AreBytes n bs h)

unary-AreBytes : (s : String) → AreBytes (unary s)
unary-AreBytes String.[] = tt
unary-AreBytes (String.◌∷◌ c s) = ones-AreBytes (code c) (unary s) (unary-AreBytes s)

ones_injective : (m n : ℕ) (bs cs : List ℕ) → ones m bs ≡ ones n cs → (m ≡ n) × (bs ≡ cs)
ones_injective zero zero bs cs e = (refl, cc)
ones_injective zero (suc n) bs cs e = ground arith
ones_injective (suc m) zero bs cs e = ground arith
ones_injective (suc m) (suc n) bs cs e =
    let both = ones_injective m n bs cs (ground arith) in (ap suc both.0, both.1)

ones_ne_nil : (n : ℕ) (bs : List ℕ) → ones n bs ≢ []
ones_ne_nil zero bs e = ground arith
ones_ne_nil (suc n) bs e = ground arith

unary_injective : (s t : String) → unary s ≡ unary t → s ≡ t
unary_injective String.[] String.[] e = refl
unary_injective String.[] (String.◌∷◌ d t) e = absurd (ones_ne_nil (code d) (unary t) (sym e))
unary_injective (String.◌∷◌ c s) String.[] e = absurd (ones_ne_nil (code c) (unary s) e)
unary_injective (String.◌∷◌ c s) (String.◌∷◌ d t) e =
    let both = ones_injective (code c) (code d) (unary s) (unary t) e in
    let same : c ≡ d = Char-path c d both.0 in let rest : s ≡ t = unary_injective s t both.1 in cc

unary-IsDigest : IsDigest unary
unary-IsDigest = record { bytes = unary-AreBytes; collision_free = unary_injective }

-- Clerk names one user for every token until second 1000, and rejects all from then on.
abbrev verify : ℕ → String → Option String
verify now token = if ltb now 1000 then some "ann" else none

-- A handler that counts its calls.
abbrev next : String → ℕ → Outcome (Reply String) × ℕ
next user n = (value (ok 200 user), suc n)

abbrev fresh : Session memory_kv unary verify next
fresh = record { sessions = []; world = 0 }

bearer_test : bearer (some "Bearer abc") ≡ some "abc"
unfolding bearer
bearer_test = refl

abbrev header : Option String
header = some "Bearer abc"

abbrev requests : List (ℕ × Option String)
requests = (10, header) ∷ (20, none) ∷ []

clerk_auth_sound_example :
    let r =
      clerk_auth memory_kv unary verify next 30 header
        (serve_requests memory_kv unary verify next requests fresh) in
    (r.0 ≡ value (refused 401 (error "Unauthorized")))
    ⊎ ((token user : String) × (w : ℕ) × (bearer header ≡ some token)
        × Vouched verify 30 token user
        × (r.0 ≡ (next user w).0)
        × (r.1.world ≡ (next user w).1))
clerk_auth_sound_example =
    clerk_auth_sound memory_kv unary verify next unary-IsDigest requests 30 header fresh (λ k. refl)
      (omega arith, (omega arith, omega arith))

late_rejects : (t : ℕ) → 1000 ≤ t → verify t "abc" ≡ none
late_rejects t h = ground arith

clerk_auth_revoked_example :
    (clerk_auth memory_kv unary verify next 1300 header
      (serve_requests memory_kv unary verify next requests fresh)).0
    ≡ value (refused 401 (error "Unauthorized"))
unfolding bearer
clerk_auth_revoked_example =
    clerk_auth_revoked memory_kv unary verify next unary-IsDigest requests 1300 header fresh "abc"
      1000 (λ k. refl) (omega arith, (omega arith, omega arith)) refl late_rejects (omega arith)

-- The middleware's branches do not depend on the digest.
abbrev flat : String → List ℕ
flat s = []

abbrev empty : Session memory_kv flat verify next
empty = record { sessions = []; world = 0 }
