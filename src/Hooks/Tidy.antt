-- ===== src/Hooks/Tidy.antt =====
-- The intervals and the polls of `useDeviceStatus` of packages/portal/src/hooks/useDevices.ts, kept in
-- order by every event.
use ngfw_sh.Prelude.{
  Bool-cases, truthy, get_elem?, without, All, All-map, ℕ, zero, suc, ◌<◌, String, ◌≡◌, refl, sym,
  ap, ◌∙◌, inl, inr, true, false, Option, none, some, List, [], ◌∷◌, ◌++◌, arith,
}
use ngfw_sh.Hooks.{
  Effect, Result, Hook, same_effect, is_cancelled, same_id, poll, effect_of, run_effect, cancel,
  cleanup, render, ticked, shown, answered, settle, mount, Event, step, run, status, failure,
  renders, ticks, settles, unmounts,
}

abbrev pub interval_of : Option Effect → List Effect
interval_of none = []
interval_of (some e) = e ∷ []

abbrev pub IsLive : Option Effect → Option String → ℕ → Type 0
IsLive none device_id next = Unit
IsLive (some e) device_id next = (truthy device_id ≡ some e.device) × (e.number < next)

-- A poll of the live effect is for the device that the effect polls.
abbrev pub AreOwn : Option Effect → List Effect → Type 0
AreOwn none ps = Unit
AreOwn (some e) ps = All (λ p. same_effect p e ≡ true → p.device ≡ e.device) ps

abbrev pub AreOld : ℕ → List Effect → Type 0
AreOld next ps = All (λ p. p.number < next) ps

-- The one interval that is set is that of the live effect, which polls the device of the last render.
pub record IsTidy {S : Type 0} (s : Hook S) : Type 0 where
  pub has_interval : s.intervals ≡ interval_of s.live
  pub is_live : IsLive s.live s.device_id s.next
  pub old : AreOld s.next s.polls
  pub own : AreOwn s.live s.polls

some_same : {e f : Effect} → some e ≡ some f → f ≡ e
some_same d = cc

module _ (P : Effect → Type 0) where
  All-last : (ps : List Effect) (e : Effect) → All P ps → P e → All P (ps ++ e ∷ [])
  All-last [] e h k = (k, tt)
  All-last (p ∷ ps) e (h, hs) k = (h, All-last ps e hs k)

  All-without : (ps : List Effect) (k : ℕ) → All P ps → All P (without ps k)
  All-without [] k h = tt
  All-without (p ∷ ps) zero (h, hs) = hs
  All-without (p ∷ ps) (suc k) (h, hs) = (h, All-without ps k hs)

  pub All-get_elem? :
      (ps : List Effect) (k : ℕ) (e : Effect) → All P ps → get_elem? ps k ≡ some e → P e
  All-get_elem? [] k e h d = cc
  All-get_elem? (p ∷ ps) zero e (h, hs) d = rw (← some_same d) at h
  All-get_elem? (p ∷ ps) (suc k) e (h, hs) d = All-get_elem? ps k e hs d

AreOwn-without :
    (l : Option Effect) (ps : List Effect) (k : ℕ) → AreOwn l ps → AreOwn l (without ps k)
AreOwn-without none ps k h = tt
AreOwn-without (some e) ps k h =
    All-without (λ p. same_effect p e ≡ true → p.device ≡ e.device) ps k h

-- None of the older polls is of a new effect.
own_of_old :
    (next : ℕ) (device : String) (ps : List Effect)
    → AreOld next ps
    → All
        (λ p. same_effect p (record { number = next; device = device }) ≡ true → p.device ≡ device)
        ps
own_of_old next device [] h = tt
own_of_old next device (p ∷ ps) (h, hs) =
    ((λ e. absurd (ground arith)), own_of_old next device ps hs)

old_suc : (next : ℕ) (ps : List Effect) → AreOld next ps → AreOld (suc next) ps
old_suc next ps h = All-map (λ p k. omega arith) ps h

live_number :
    (l : Option Effect) (e : Effect) (d : Option String) (n : ℕ)
    → l ≡ some e
    → IsLive l d n
    → e.number < n
live_number none e d n same h = cc
live_number (some f) e d n same (h, k) = rw (some_same same) k

own_last :
    (l : Option Effect) (e : Effect) (ps : List Effect)
    → l ≡ some e
    → AreOwn l ps
    → AreOwn l (ps ++ e ∷ [])
own_last none e ps same h = tt
own_last (some f) e ps same h =
    All-last (λ p. same_effect p f ≡ true → p.device ≡ f.device) ps e h
      (λ k. ap (λ x. x.device) (some_same same))

only_live :
    (l : Option Effect) (k : ℕ) (e : Effect) → get_elem? (interval_of l) k ≡ some e → l ≡ some e
only_live none k e h = cc
only_live (some f) zero e h = h
only_live (some f) (suc k) e h = cc

module _ {S : Type 0} where
  poll_lem :
      (e : Effect) (s : Hook S)
      → s.live ≡ some e
      → poll e s ≡ record s { loading = true; error = none; polls = s.polls ++ e ∷ [] }
  unfolding poll
  poll_lem e s l = let here : is_cancelled e (some e) ≡ false = ground arith in rw (l, here) refl

  poll-IsTidy : (e : Effect) (s : Hook S) → s.live ≡ some e → IsTidy s → IsTidy (poll e s)
  poll-IsTidy e s l t = rw (poll_lem e s l) record {
    has_interval = t.has_interval;
    is_live = t.is_live;
    old =
        All-last (λ p. p.number < s.next) s.polls e t.old
          (live_number s.live e s.device_id s.next l t.is_live);
    own = own_last s.live e s.polls l t.own;
  }

  effect_of-IsTidy :
      (o : Option String) (s : Hook S)
      → truthy s.device_id ≡ o
      → s.live ≡ none
      → s.intervals ≡ []
      → AreOld s.next s.polls
      → IsTidy (effect_of o s)
  effect_of-IsTidy none s d l i h = record {
    has_interval = rw (i, l) refl;
    is_live = rw l tt;
    old = h;
    own = rw l tt;
  }
  effect_of-IsTidy (some device) s d l i h =
      let e : Effect = record { number = s.next; device = device } in
      poll-IsTidy e
        (record s { live = some e; next = suc s.next; intervals = s.intervals ++ e ∷ [] }) refl
        record {
          has_interval = rw i refl;
          is_live = (d, omega arith);
          old = old_suc s.next s.polls h;
          own = own_of_old s.next device s.polls h;
        }

  cancel-intervals :
      (l : Option Effect) (s : Hook S)
      → s.intervals ≡ interval_of l
      → s.live ≡ l
      → ((cancel l s).intervals ≡ []) × ((cancel l s).live ≡ none)
  cancel-intervals none s i l = (i, l)
  cancel-intervals (some e) s i l =
      let here : same_effect e e ≡ true = ground arith in (rw (i, here) refl, refl)

  cancel_keeps :
      (l : Option Effect) (s : Hook S)
      → ((cancel l s).next ≡ s.next) × ((cancel l s).polls ≡ s.polls)
  cancel_keeps none s = (refl, refl)
  cancel_keeps (some e) s = (refl, refl)

  cleanup-IsTidy :
      (s : Hook S)
      → IsTidy s
      → ((cleanup s).intervals ≡ [])
        × ((cleanup s).live ≡ none)
        × AreOld (cleanup s).next (cleanup s).polls
  unfolding cleanup
  cleanup-IsTidy s t =
      let (i, l) = cancel-intervals s.live s t.has_interval refl in
      let (n, p) = cancel_keeps s.live s in (i, l, rw (n, p) t.old)

  render-IsTidy : (device_id : Option String) (s : Hook S) → IsTidy s → IsTidy (render device_id s)
  unfolding render run_effect
  render-IsTidy device_id s t = elim (Bool-cases (same_id device_id s.device_id)) [
    | inl e ↦ rw e t
    | inr e ↦
        let (i, l, h) = cleanup-IsTidy s t in
        rw e (
          effect_of-IsTidy (truthy device_id) (record (cleanup s) { device_id = device_id }) refl l
            i h)
  ]

  ticked-IsTidy :
      (k : ℕ) (o : Option Effect) (s : Hook S)
      → get_elem? s.intervals k ≡ o
      → IsTidy s
      → IsTidy (ticked o s)
  ticked-IsTidy k none s e t = t
  ticked-IsTidy k (some f) s e t =
      poll-IsTidy f s (only_live s.live k f (ap (λ l. get_elem? l k) (sym t.has_interval) ∙ e)) t

  without-IsTidy : (k : ℕ) (s : Hook S) → IsTidy s → IsTidy (record s { polls = without s.polls k })
  without-IsTidy k s t = record {
    has_interval = t.has_interval;
    is_live = t.is_live;
    old = All-without (λ p. p.number < s.next) s.polls k t.old;
    own = AreOwn-without s.live s.polls k t.own;
  }

  shown-IsTidy : (r : Result S) (s : Hook S) → IsTidy s → IsTidy (shown r s)
  shown-IsTidy (status v) s t = record {
    has_interval = t.has_interval;
    is_live = t.is_live;
    old = t.old;
    own = t.own;
  }
  shown-IsTidy (failure e) s t = record {
    has_interval = t.has_interval;
    is_live = t.is_live;
    old = t.old;
    own = t.own;
  }

  answered-IsTidy :
      (o : Option Effect) (r : Result S) (s : Hook S) → IsTidy s → IsTidy (answered o r s)
  answered-IsTidy none r s t = t
  answered-IsTidy (some e) r s t = elim (Bool-cases (is_cancelled e s.live)) [
    | inl c ↦ rw c t
    | inr c ↦ rw c (shown-IsTidy r s t)
  ]

  settle-IsTidy : (k : ℕ) (r : Result S) (s : Hook S) → IsTidy s → IsTidy (settle k r s)
  unfolding settle
  settle-IsTidy k r s t =
      answered-IsTidy (get_elem? s.polls k) r (record s { polls = without s.polls k })
        (without-IsTidy k s t)

  unmounted-IsTidy : (s : Hook S) → IsTidy s → IsTidy (cleanup s)
  unmounted-IsTidy s t =
      let (i, l, h) = cleanup-IsTidy s t in
      record { has_interval = rw (i, l) refl; is_live = rw l tt; old = h; own = rw l tt }

  step-IsTidy : (e : Event S) (s : Hook S) → IsTidy s → IsTidy (step e s)
  unfolding step
  step-IsTidy (renders device_id) s t = render-IsTidy device_id s t
  step-IsTidy (ticks k) s t = ticked-IsTidy k (get_elem? s.intervals k) s refl t
  step-IsTidy (settles k r) s t = settle-IsTidy k r s t
  step-IsTidy unmounts s t = unmounted-IsTidy s t

  run-IsTidy : (es : List (Event S)) (s : Hook S) → IsTidy s → IsTidy (run es s)
  unfolding run
  run-IsTidy [] s t = t
  run-IsTidy (e ∷ es) s t = run-IsTidy es (step e s) (step-IsTidy e s t)

  mount-IsTidy : (device_id : Option String) → IsTidy {S = S} (mount device_id)
  unfolding mount run_effect
  mount-IsTidy device_id = effect_of-IsTidy (truthy device_id) _ refl refl refl tt

  -- Whatever happens to a mounted hook, the one interval that is set is that of the live effect, which
  -- polls the device of the last render, and every poll of that effect is for this device; without a live
  -- effect, no interval is set.
  pub run-IsTidy_of_mount :
      (device_id : Option String) (es : List (Event S)) → IsTidy (run es (mount device_id))
  run-IsTidy_of_mount device_id es = run-IsTidy es (mount device_id) (mount-IsTidy device_id)
