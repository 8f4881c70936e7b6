-- ===== src/Hooks/Own.antt =====
-- Whose status `useDeviceStatus` of packages/portal/src/hooks/useDevices.ts shows.
use ngfw_sh.Prelude.{
  Bool-cases, Option-cases, truthy, get_elem?, without, ℕ, String, ◌≡◌, refl, sym, ap, ◌∙◌, ◌⊎◌,
  inl, inr, true, false, Option, none, some, List, arith,
}
use ngfw_sh.Hooks.{
  Effect, Result, Hook, same_effect, is_cancelled, shown, settle, mount, Event, run,
}
use ngfw_sh.Hooks.Tidy.{IsLive, AreOwn, All-get_elem?, run-IsTidy_of_mount}

live_own :
    (e : Effect) (l : Option Effect) (d : Option String) (n : ℕ) (ps : List Effect) (k : ℕ)
    → IsLive l d n
    → AreOwn l ps
    → get_elem? ps k ≡ some e
    → is_cancelled e l ≡ false
    → truthy d ≡ some e.device
live_own e none d n ps k h o g c = cc
live_own e (some f) d n ps k (h, b) o g c =
    let same : e.device ≡ f.device =
      All-get_elem? (λ p. same_effect p f ≡ true → p.device ≡ f.device) ps k e o g (ground arith) in
    h ∙ ap some (sym same)

module _ {S : Type 0} where
  -- A hook in which the k-th poll has settled and has changed nothing else.
  abbrev pub ignored : ℕ → Hook S → Hook S
  ignored k s = record s { polls = without s.polls k }

  -- Whatever has happened to a mounted hook, a poll that settles changes what is shown only if it was for
  -- the device of the last render: then its status or its error is shown. Otherwise it is ignored.
  pub settle_own :
      (device_id : Option String) (es : List (Event S)) (k : ℕ) (r : Result S)
      → let s = run es (mount device_id) in
        (settle k r s ≡ ignored k s)
        ⊎ ((e : Effect) × (get_elem? s.polls k ≡ some e)
            × (truthy s.device_id ≡ some e.device)
            × (settle k r s ≡ shown r (ignored k s)))
  unfolding settle
  settle_own device_id es k r =
      let s = run es (mount device_id) in
      let t = run-IsTidy_of_mount device_id es in
      elim (Option-cases (get_elem? s.polls k)) [
        | inl e ↦ inl (rw e refl)
        | inr (e, g) ↦ elim (Bool-cases (is_cancelled e s.live)) [
          | inl c ↦ inl (rw (g, c) refl)
          | inr c ↦ inr (
            e,
            g,
            live_own e s.live s.device_id s.next s.polls k t.is_live t.own g c,
            rw (g, c) refl,
          )
        ]
      ]
