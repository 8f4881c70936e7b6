-- ===== src/Ips/Categories/Modes.antt =====
-- The modes that packages/schema/src/endpoints/ips keeps for a user's categories.
use text.Mathlib.TextEquality.{eq_iff}
use text.Mathlib.TextPositions.{eq_refl}
use ngfw_sh.Prelude.{
  ◌==◌, if◌then◌else◌, Bool-cases, Option-cases, ℕ, ◌/◌, String, ◌≡◌, refl, sym, ap, ◌∙◌, inl, inr,
  none, some, List, [], ◌∷◌, map, arith,
}
use ngfw_sh.Platform.Http.{ok, value}
use ngfw_sh.Platform.Kv.{Entry, Kv}
use ngfw_sh.Ips.Settings.{IpsMode, Json}
use ngfw_sh.Ips.Categories.{
  IpsCategory, ips_categories, Settings, setting, set_mode, shown, categories_key, custom_settings,
  category_list, category_update,
}
use ngfw_sh.Ips.Settings.Config.{ReadsBack, parsed_or_else_lem}

setting-set_mode :
    (id : String) (mode : IpsMode) (l : Settings) (k : String)
    → setting k (set_mode id mode l) ≡ (
        if k == id
        then elim (setting k l) [
          | none ↦ some (record { mode = some mode; rule_count = none })
          | some x ↦ some (record x { mode = some mode })
        ]
        else setting k l)
unfolding setting set_mode
setting-set_mode id mode [] k = ground (arith, eq_iff id k, eq_iff k id)
setting-set_mode id mode ((j, x) ∷ l) k =
    ground (arith, eq_iff j id, eq_iff j k, eq_iff k id, setting-set_mode id mode l k)

-- One category after an update of a mode.
abbrev pub with_mode : String → IpsMode → IpsCategory → IpsCategory
with_mode id mode cat = if cat.id == id then record cat { mode = mode } else cat

shown-set_mode :
    (id : String) (mode : IpsMode) (l : Settings) (cat : IpsCategory)
    → shown (set_mode id mode l) cat ≡ with_mode id mode (shown l cat)
unfolding shown
shown-set_mode id mode l cat = ground (arith, setting-set_mode id mode l cat.id)

map-shown :
    (id : String) (mode : IpsMode) (l : Settings) (cats : List IpsCategory)
    → map (shown (set_mode id mode l)) cats ≡ map (with_mode id mode) (map (shown l) cats)
map-shown id mode l [] = refl
map-shown id mode l (cat ∷ cats) =
    ground (arith, shown-set_mode id mode l cat, map-shown id mode l cats)

module _ (kv : Kv) (json : Json Settings) where
  open kv use {Store, entry, get, put, get_lem, put_done}

  category_update_stored :
      (user id : String) (mode : IpsMode) (now : ℕ) (s : Store String) {l : Settings}
      {c : IpsCategory}
      → (custom_settings kv json user now s).0 ≡ value l
      → (category_update kv json user id mode now s).0 ≡ value (ok 200 c)
      → entry (categories_key user) (category_update kv json user id mode now s).1
        ≡ some (json.stringify (set_mode id mode l), none)
  unfolding category_update
  category_update_stored user id mode now s {l = l} was h =
      let new : Entry String = (json.stringify (set_mode id mode l), none) in
      elim (Option-cases (get (categories_key user) (now / 1000) s)) [
        | inl e ↦ ground arith
        | inr (raw, e) ↦ elim (Bool-cases (put (categories_key user) new s).1) [
          | inl done ↦ ground (
            arith,
            put_done (categories_key user) new s (categories_key user) done,
            eq_refl (categories_key user),
          )
          | inr failed ↦ ground arith
        ]
      ]

  -- After an accepted update the list shows the category with its new mode, and the other
  -- categories, the rule counts and the order as before, if the JSON text of the settings that the
  -- update makes of the old ones is read back.
  pub category_list-category_update :
      (user id : String) (mode : IpsMode) (now later : ℕ) (s : Store String) {l : Settings}
      {c : IpsCategory} {before after : List IpsCategory}
      → (custom_settings kv json user now s).0 ≡ value l
      → ReadsBack json (set_mode id mode l)
      → (category_list kv json user now s).0 ≡ value (ok 200 before)
      → (category_update kv json user id mode now s).0 ≡ value (ok 200 c)
      → (category_list kv json user later (category_update kv json user id mode now s).1).0
        ≡ value (ok 200 after)
      → after ≡ map (with_mode id mode) before
  unfolding category_list
  category_list-category_update user id mode now later s {l = l} {before = before} {after = after}
        old r b h a =
      let s' = (category_update kv json user id mode now s).1 in
      elim (Option-cases (get (categories_key user) (later / 1000) s')) [
        | inl e ↦ ground arith
        | inr (raw, e) ↦
            let seen : raw ≡ some (json.stringify (set_mode id mode l)) = ground (
              arith,
              get_lem (categories_key user) (later / 1000) s' e,
              category_update_stored user id mode now s old h,
            ) in
            let shows : after ≡ map (shown (set_mode id mode l)) ips_categories =
              ground (arith, seen, parsed_or_else_lem json [] (set_mode id mode l) r) in
            let was : before ≡ map (shown l) ips_categories = ground (arith, b) in
            shows ∙ map-shown id mode l ips_categories ∙ ap (map (with_mode id mode)) (sym was)
      ]
