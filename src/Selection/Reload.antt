-- ===== src/Selection/Reload.antt =====
-- What a reload of a page of packages/portal-astro finds of the device that useSelectedDevice had selected.
use text.Mathlib.TextEquality.{eq_iff}
use ngfw_sh.Prelude.{
  ◌==◌, Bool-cases, truthy, without, All, ℕ, zero, suc, String, ◌≡◌, refl, inl, inr, true, Option,
  none, some, List, [], ◌∷◌, ◌++◌, map, arith,
}
use ngfw_sh.Selection.{
  SelectedDevice, Selection, Event, same_id, stored_by, load, select_device, clear_device,
  use_selected_device, flush, step, run, by_id, by_device, mounts, flushes, reloads, clears,
  unmounts, selects,
}

abbrev pub AllSaw : Option String → List (Option String) → Type 0
AllSaw v seen = All (λ w. w ≡ v) seen

-- The oldest watcher saw last what is stored; without one, what is selected is stored.
abbrev IsStored : Option String → Option String → List (Option String) → Type 0
IsStored id stored [] = stored ≡ truthy id
IsStored id stored (v ∷ seen) = stored ≡ truthy v

-- The device's data, where there are any, are those of the device that is selected.
abbrev pub IsOf {ℓ} : {T : Type ℓ} → Option (SelectedDevice T) → Option String → Type 0
IsOf none id = Unit
IsOf (some d) id = id ≡ some d.id

truthy-truthy : (o : Option String) → truthy (truthy o) ≡ truthy o
truthy-truthy none = refl
truthy-truthy (some s) = elim (Bool-cases (s == "")) [ inl e ↦ rw e refl | inr e ↦ ground arith ]

same_id-eq : (a b : Option String) → same_id a b ≡ true → a ≡ b
same_id-eq none none h = refl
same_id-eq none (some b) h = ground arith
same_id-eq (some a) none h = ground arith
same_id-eq (some a) (some b) h = ground (arith, eq_iff a b)

stored_by-same :
    (v : Option String) (seen : List (Option String)) → stored_by v seen (truthy v) ≡ truthy v
stored_by-same v [] = refl
stored_by-same v (w ∷ seen) = elim (Bool-cases (same_id w v)) [
  | inl e ↦ rw e (stored_by-same v seen)
  | inr e ↦ rw e (stored_by-same v seen)
]

stored_by_lem :
    (v : Option String) (stored : Option String) (seen : List (Option String))
    → IsStored v stored seen
    → stored_by v seen stored ≡ truthy v
stored_by_lem v stored [] h = h
stored_by_lem v stored (w ∷ seen) h = elim (Bool-cases (same_id w v)) [
  | inl e ↦ rw (e, h, same_id-eq w v e) (stored_by-same v seen)
  | inr e ↦ rw e (stored_by-same v seen)
]

IsStored-AllSaw :
    (id stored : Option String) (seen : List (Option String))
    → stored ≡ truthy id
    → AllSaw id seen
    → IsStored id stored seen
IsStored-AllSaw id stored [] h a = h
IsStored-AllSaw id stored (v ∷ seen) h (e, a) = rw e h

AllSaw-IsStored :
    (id stored : Option String) (seen : List (Option String))
    → AllSaw id seen
    → IsStored id stored seen
    → stored ≡ truthy id
AllSaw-IsStored id stored [] a h = h
AllSaw-IsStored id stored (v ∷ seen) (e, a) h = cc

AllSaw-without :
    (id : Option String) (seen : List (Option String)) (k : ℕ)
    → AllSaw id seen
    → AllSaw id (without seen k)
AllSaw-without id [] k a = tt
AllSaw-without id (v ∷ seen) zero (e, a) = a
AllSaw-without id (v ∷ seen) (suc k) (e, a) = (e, AllSaw-without id seen k a)

AllSaw-map : (id : Option String) (seen : List (Option String)) → AllSaw id (map (λ v. id) seen)
AllSaw-map id [] = tt
AllSaw-map id (v ∷ seen) = (refl, AllSaw-map id seen)

IsStored-push :
    (id stored : Option String) (seen : List (Option String))
    → IsStored id stored seen
    → IsStored id stored (seen ++ id ∷ [])
IsStored-push id stored [] h = h
IsStored-push id stored (v ∷ seen) h = h

truthy-stored :
    (id stored : Option String) (seen : List (Option String))
    → IsStored id stored seen
    → stored ≡ truthy stored
truthy-stored id stored [] h = let t = truthy-truthy id in cc
truthy-stored id stored (v ∷ seen) h = let t = truthy-truthy v in cc

abbrev IsWatched : List (Option String) → Type 0
IsWatched [] = ⊥
IsWatched (v ∷ seen) = Unit

-- With a watcher, what is stored does not depend on what is selected.
IsStored-watched :
    (a b stored : Option String) (seen : List (Option String))
    → IsWatched seen
    → IsStored a stored seen
    → IsStored b stored seen
IsStored-watched a b stored [] w h = elim w [ ]
IsStored-watched a b stored (v ∷ seen) w h = h

module _ {ℓ} {T : Type ℓ} where
  -- A device is selected or cleared while a component is mounted, and a component is unmounted when Vue
  -- has called its watchers: one that is unmounted in the tick of the selection takes its watcher along, and
  -- the selection may be lost.
  abbrev pub IsOrderly : Event T → Selection T → Type 0
  IsOrderly mounts s = Unit
  IsOrderly flushes s = Unit
  IsOrderly reloads s = Unit
  IsOrderly clears s = IsWatched s.seen
  IsOrderly (unmounts k) s = AllSaw s.selected_device_id s.seen
  IsOrderly (selects d) s = IsWatched s.seen

  abbrev pub AreOrderly : List (Event T) → Selection T → Type 0
  AreOrderly [] s = Unit
  AreOrderly (e ∷ es) s = IsOrderly e s × AreOrderly es (step e s)

  abbrev IsKept : Selection T → Type 0
  IsKept s =
      IsStored s.selected_device_id s.stored s.seen × IsOf s.selected_device s.selected_device_id

  step-IsKept : (e : Event T) (s : Selection T) → IsOrderly e s → IsKept s → IsKept (step e s)
  unfolding step load select_device clear_device use_selected_device flush
  step-IsKept mounts s o (h, d) = (IsStored-push s.selected_device_id s.stored s.seen h, d)
  step-IsKept flushes s o (h, d) =
      let id = s.selected_device_id in
      (IsStored-AllSaw id _ _ (stored_by_lem id s.stored s.seen h) (AllSaw-map id s.seen), d)
  step-IsKept reloads s o (h, d) = (truthy-stored s.selected_device_id s.stored s.seen h, tt)
  step-IsKept clears s o (h, d) =
      (IsStored-watched s.selected_device_id none s.stored s.seen o h, tt)
  step-IsKept (unmounts k) s o (h, d) =
      let id = s.selected_device_id in
      (
        IsStored-AllSaw id s.stored (without s.seen k) (AllSaw-IsStored id s.stored s.seen o h)
            (AllSaw-without id s.seen k o),
        d,
      )
  step-IsKept (selects (by_id id)) s o (h, d) =
      (IsStored-watched s.selected_device_id (some id) s.stored s.seen o h, tt)
  step-IsKept (selects (by_device e)) s o (h, d) =
      (IsStored-watched s.selected_device_id (some e.id) s.stored s.seen o h, refl)

  run-IsKept :
      (es : List (Event T)) (s : Selection T) → AreOrderly es s → IsKept s → IsKept (run es s)
  unfolding run
  run-IsKept [] s o h = h
  run-IsKept (e ∷ es) s (o, os) h = run-IsKept es (step e s) os (step-IsKept e s o h)

  -- In a tab whose storage had no selection, after any events such that a device is selected or cleared
  -- only while some component that uses the composable is mounted, and a component is unmounted only when
  -- every watcher has seen the present selection: a reload right after a flush of the watchers finds the
  -- identifier that was selected, where it is not empty, and none otherwise; and the device's data, where
  -- there are any, are those of the identifier that is selected.
  pub reloads-run :
      (es : List (Event T))
      → AreOrderly es (load none)
      → let s = run es (load none) in
        ((step reloads (step flushes s)).selected_device_id ≡ truthy s.selected_device_id)
        × IsOf s.selected_device s.selected_device_id
  unfolding step load flush
  reloads-run es o =
      let s = run es (load none) in
      let (h, d) = run-IsKept es (load none) o (refl, tt) in
      (stored_by_lem s.selected_device_id s.stored s.seen h, d)
