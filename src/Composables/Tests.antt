-- ===== src/Composables/Tests.antt =====
-- packages/portal-astro/src/composables/useNAT.ts and useVPNServer.ts with texts for bodies and answers.
use ngfw_sh.Prelude.{get_elem?, String, ◌≡◌, refl, false, none, some, List, [], ◌∷◌}
use ngfw_sh.Client.{LogQuery, list_nat_rules}
use ngfw_sh.Composables.{nat, remove}
use ngfw_sh.Composables.Screen.{
  Settlement, Screen, Event, settle, run, mount, fetching, values, failure, reload, changes,
  settles, selects,
}
use ngfw_sh.Composables.Loading.{settle_all, settle_all-run}
use ngfw_sh.Composables.Idle.{IsStuck, run-mount_without_device}
use ngfw_sh.Composables.Changes.{fetched_twice, refetch_stale}

abbrev no_query : LogQuery
no_query = record {
  device_id = none;
  level = none;
  category = none;
  start_time = none;
  end_time = none;
  limit = none;
  offset = none;
}

abbrev removes_and_reloads : List (Event String String)
removes_and_reloads = changes (remove "n1") ∷ reload ∷ []

abbrev answers : List (Settlement String)
answers = failure none ∷ failure (some "Forbidden") ∷ values ("rules" ∷ []) ∷ []

settle_all-run_example :
    let s =
      settle_all nat answers (run nat removes_and_reloads (mount nat "d1" no_query ("" ∷ []))) in
    (s.loading ≡ false) × (s.pending ≡ [])
unfolding run mount
settle_all-run_example =
    settle_all-run nat "d1" no_query ("" ∷ []) removes_and_reloads answers refl refl

abbrev selects_only : List (Event String String)
selects_only = selects "d1" ∷ changes (remove "n1") ∷ settles 0 (values []) ∷ []

run-mount_without_device_example : IsStuck (run nat selects_only (mount nat "" no_query ("" ∷ [])))
run-mount_without_device_example =
    run-mount_without_device nat no_query ("" ∷ []) selects_only refl (refl, (refl, (refl, tt)))

abbrev screen : Screen String String
screen = record {
  device = "d1";
  query = no_query;
  shown = "config" ∷ "peers" ∷ [];
  loading = false;
  error = some "old";
  pending = [];
}

refetch_stale_example :
    let twice = fetched_twice nat "d2" screen in
    let shows =
      (settle nat 0 (values ("of d1" ∷ [])) (settle nat 1 (values ("of d2" ∷ [])) twice).0).0 in
    (get_elem? twice.pending 0 ≡ some (fetching (list_nat_rules "d1" ∷ [])))
    × (shows ≡ record screen { device = "d2"; shown = "of d1" ∷ []; loading = false; error = none })
refetch_stale_example = refetch_stale nat screen "d2" ("of d1" ∷ []) ("of d2" ∷ []) refl refl
