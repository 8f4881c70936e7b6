-- ===== src/Ips/Categories.antt =====
-- packages/schema/src/endpoints/ips: the modes of a user's categories of rules, as a JSON text in the
-- KV namespace CONFIGS. `now` is `Date.now()`.
pub mod Modes
use Prim.Native.String.{◌++◌}
use ngfw_sh.Prelude.{
  eqb, ◌==◌, if◌then◌else◌, or_else, filter, head?, ℕ, ◌/◌, String, Option, none, some, List, [],
  ◌∷◌, map,
}
use ngfw_sh.Platform.Http.{Reply, M, ◌>>=◌, ◌>>◌, answer, refuse, await, await_write}
use ngfw_sh.Platform.Kv.{Kv}
use ngfw_sh.Ips.Settings.{IpsMode, Json, parsed_or_else, detect, prevent}

-- `ipsCategory`.
pub record IpsCategory : Type 0 where
  pub id : String
  pub name : String
  pub description : String
  pub mode : IpsMode
  pub rule_count : ℕ

-- `IPS_CATEGORIES`.
unfoldable pub ips_categories : List IpsCategory
ips_categories =
    record {
      id = "malware";
      name = "Malware";
      description = "Malware, trojans, and malicious software";
      mode = prevent;
      rule_count = 0;
    }
    ∷ record {
      id = "exploits";
      name = "Exploits";
      description = "Exploit attempts and vulnerability targeting";
      mode = prevent;
      rule_count = 0;
    }
    ∷ record {
      id = "dos";
      name = "Denial of Service";
      description = "DoS and DDoS attack patterns";
      mode = prevent;
      rule_count = 0;
    }
    ∷ record {
      id = "policy-violation";
      name = "Policy Violation";
      description = "Traffic violating configured policies";
      mode = detect;
      rule_count = 0;
    }
    ∷ record {
      id = "suspicious";
      name = "Suspicious Activity";
      description = "Potentially suspicious or anomalous behavior";
      mode = detect;
      rule_count = 0;
    }
    ∷ record {
      id = "web-attacks";
      name = "Web Attacks";
      description = "SQL injection, XSS, and other web attacks";
      mode = prevent;
      rule_count = 0;
    }
    ∷ record {
      id = "reconnaissance";
      name = "Reconnaissance";
      description = "Port scans, network enumeration, and probing";
      mode = detect;
      rule_count = 0;
    }
    ∷ record {
      id = "botnet";
      name = "Botnet";
      description = "Known botnet C&C communication";
      mode = prevent;
      rule_count = 0;
    }
    ∷ []

-- What `customSettings` holds of a category.
pub record Setting : Type 0 where
  pub mode : Option IpsMode
  pub rule_count : Option ℕ

abbrev pub Settings : Type 0
Settings = List (String × Setting)

-- `customSettings[id]`.
unfoldable pub setting : String → Settings → Option Setting
setting id [] = none
setting id ((k, x) ∷ l) = if k == id then some x else setting id l

-- `customSettings[id] = {...customSettings[id], mode}`.
unfoldable pub set_mode : String → IpsMode → Settings → Settings
set_mode id mode [] = (id, record { mode = some mode; rule_count = none }) ∷ []
set_mode id mode ((k, x) ∷ l) =
    let rest = set_mode id mode l in
    if k == id then (k, record x { mode = some mode }) ∷ l else (k, x) ∷ rest

abbrev mode_or_else : Option Setting → IpsMode → IpsMode
mode_or_else none m = m
mode_or_else (some x) m = or_else x.mode m

-- `n || d`.
abbrev nonzero_or_else : Option ℕ → ℕ → ℕ
nonzero_or_else none d = d
nonzero_or_else (some n) d = if eqb n 0 then d else n

abbrev count_or_else : Option Setting → ℕ → ℕ
count_or_else none n = n
count_or_else (some x) n = nonzero_or_else x.rule_count n

-- A category as the list shows it.
unfoldable pub shown : Settings → IpsCategory → IpsCategory
unfolding setting
shown l cat = record cat {
  mode = mode_or_else (setting cat.id l) cat.mode;
  rule_count = count_or_else (setting cat.id l) cat.rule_count;
}

abbrev pub categories_key : String → String
categories_key user = "ips_categories:" ++ user

module _ (kv : Kv) (json : Json Settings) where
  open kv use {Store, get, put}

  abbrev pub custom_settings : String → ℕ → M (Store String) Settings
  custom_settings user now = do
    raw ← await (get (categories_key user) (now / 1000))
    await (λ s. parsed_or_else json [] raw)

  unfoldable pub category_list : String → ℕ → M (Store String) (Reply (List IpsCategory))
  unfolding shown
  category_list user now = do
    settings ← custom_settings user now
    answer 200 (map (shown settings) ips_categories)

  unfoldable pub category_update :
      String → String → IpsMode → ℕ → M (Store String) (Reply IpsCategory)
  unfolding set_mode
  category_update user id mode now = elim (head? (filter (λ cat. cat.id == id) ips_categories)) [
    | none ↦ refuse 404 "Category not found"
    | some category ↦ do
      settings ← custom_settings user now
      await_write (put (categories_key user) (json.stringify (set_mode id mode settings), none))
      answer 200 (record category { mode = mode })
  ]
