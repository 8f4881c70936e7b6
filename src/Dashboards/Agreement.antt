-- ===== src/Dashboards/Agreement.antt =====
-- That the handlers of packages/schema/src/endpoints/dashboards agree.
use ngfw_sh.Prelude.{
  String, Bool, true, false, ◌&&◌, ◌==◌, not, leb, any, if◌then◌else◌, Bool-cases, inl, inr, Option,
  none, some, List, [], ◌∷◌, ◌≡◌, refl, sym, ap, ◌∙◌,
}
use ngfw_sh.Prelude.Pairs.{Pairwise}
use ngfw_sh.Platform.Http.{Reply, ok, refused}
use ngfw_sh.Dashboards.{Dashboard, DashboardMetadata, Widget, category_text}
use text.Mathlib.TextEquality.{eq_iff}
use ngfw_sh.Dashboards.Listed.{
  dashboards, is_inherited, own, found, dashboard_read, listed, dashboard_list,
}

-- What a list answered says of an identifier.
abbrev find : String → List DashboardMetadata → Option DashboardMetadata
find id [] = none
find id (m ∷ ms) = if m.id == id then some m else find id ms

unfoldable pub lists : Reply (List DashboardMetadata) → String → Option DashboardMetadata
lists (ok status ms) id = find id ms
lists (refused status message) id = none

abbrev metadata : Dashboard → DashboardMetadata
metadata d = record {
  id = d.id;
  category = d.category;
  name = d.name;
  description = d.description;
  icon = d.icon;
  default_view = d.default_view;
}

abbrev distinct : List Widget → Bool
distinct [] = true
distinct (w ∷ ws) = not (any (λ v. v.id == w.id) ws) && distinct ws

-- No widget asks more often than every five seconds.
abbrev is_slow : List Widget → Bool
is_slow ws = not (any (λ w. not (leb 5000 w.refresh_interval)) ws)

abbrev is_sound : Dashboard → Bool
is_sound d = category_text d.category == d.id && distinct d.widgets && is_slow d.widgets

abbrev pub Agrees : String → Option DashboardMetadata → Reply (Option Dashboard) → Type 0
Agrees id item (ok status (some d)) =
    (status ≡ 200) × (item ≡ some (metadata d)) × (d.id ≡ id) × (is_sound d ≡ true)
Agrees id item (ok status none) = (status ≡ 200) × (item ≡ none) × (is_inherited id ≡ true)
Agrees id item (refused status message) = (status ≡ 404) × (item ≡ none) × (is_inherited id ≡ false)

-- An entry, and the item of the list that stands for it.
abbrev IsItem : String × Dashboard → DashboardMetadata → Type 0
IsItem (key, d) m = (key ≡ m.id) × (metadata d ≡ m) × (is_sound d ≡ true)

abbrev Tells : String → Option DashboardMetadata → Option Dashboard → Type 0
Tells id item none = item ≡ none
Tells id item (some d) = (item ≡ some (metadata d)) × (d.id ≡ id) × (is_sound d ≡ true)

own-find :
    (id : String) (es : List (String × Dashboard)) (ms : List DashboardMetadata)
    → Pairwise IsItem es ms
    → Tells id (find id ms) (own id es)
own-find id [] [] h = refl
own-find id [] (m ∷ ms) h = absurd h
own-find id (e ∷ es) [] h = absurd h
own-find id ((key, d) ∷ es) (m ∷ ms) ((k, q, s), hs) = elim (Bool-cases (key == id)) [
  | inl e ↦
      let f : m.id == id ≡ true = ap (λ t. t == id) (sym k) ∙ e in
      rw (e, f) (ap some (sym q), ap (λ x. x.id) q ∙ sym k ∙ (eq_iff key id).0 e, s)
  | inr e ↦
      let f : m.id == id ≡ false = ap (λ t. t == id) (sym k) ∙ e in rw (e, f) (own-find id es ms hs)
]

items_agree : Pairwise IsItem dashboards listed
items_agree = (
  (refl, refl, refl),
  (
    (refl, refl, refl),
    (
      (refl, refl, refl),
      (
        (refl, refl, refl),
        (
          (refl, refl, refl),
          (
            (refl, refl, refl),
            (
              (refl, refl, refl),
              ((refl, refl, refl), ((refl, refl, refl), ((refl, refl, refl), tt))),
            ),
          ),
        ),
      ),
    ),
  ),
)

found-Agrees :
    (id : String) (item : Option DashboardMetadata) (o : Option Dashboard)
    → Tells id item o
    → (b : Bool) → is_inherited id ≡ b
    → Agrees id item (found b o)
found-Agrees id item (some d) (i, k, s) b e = (refl, i, k, s)
found-Agrees id item none h true e = (refl, h, e)
found-Agrees id item none h false e = (refl, h, e)

-- A read answers a dashboard for the identifiers of the list alone: it is the one asked for, the list's
-- item is this dashboard less its widgets, its category is written as its identifier, and its widgets
-- have different identifiers and refresh at five seconds or more apart. Any other identifier is refused
-- as not found, unless it is a name that every object inherits: then the answer has no dashboard, yet
-- the status of success.
pub dashboard_read-dashboard_list :
    (id : String) → Agrees id (lists dashboard_list id) (dashboard_read id)
unfolding dashboard_read dashboard_list lists
dashboard_read-dashboard_list id =
    found-Agrees id (find id listed) (own id dashboards) (own-find id dashboards listed items_agree)
      (is_inherited id) refl
