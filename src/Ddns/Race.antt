-- ===== src/Ddns/Race.antt =====
-- Two updates at once: packages/schema/src/endpoints/ddns/configUpdate.ts looks for a configuration
-- and writes one in two queries, and no index of the table keeps `device_id` unique.
use mathlib.Core.List.Perm
use text.Mathlib.TextPositions.{eq_refl}
use ngfw_sh.Prelude.{Option-cases, filter, ℕ, String, ◌≡◌, inl, inr, some, List, [], ◌∷◌, arith}
use ngfw_sh.Platform.Http.{value}
use ngfw_sh.Platform.Database.{Database}
use ngfw_sh.Platform.Kv.{Kv}
use ngfw_sh.Ddns.{
  DdnsConfig, DdnsConfigUpdateInput, new_config, of_device, same_config, Ddns, write_config,
}

module _ (d1 : Database) (kv : Kv) where
  open d1 use {rows, select, insert, select_lem, insert_lem}

  -- If two requests both look for the device's configuration before either writes, it has none,
  -- and both writes succeed, then the device ends with two rows.
  pub write_config_twice :
      (u v : DdnsConfigUpdateInput) (device : String) (now later : ℕ) (uuid uuid' : String)
      (found found' : List DdnsConfig) (s : Ddns d1 kv)
      → filter (of_device device) (rows s.ddns_configs) ≡ []
      → select (of_device device) s.ddns_configs ≡ some found
      → select (of_device device) s.ddns_configs ≡ some found'
      → let first = write_config d1 kv u device now uuid found s in
        let second = write_config d1 kv v device later uuid' found' first.1 in
        first.0 ≡ value tt
        → second.0 ≡ value tt
        → filter (of_device device) (rows second.1.ddns_configs)
          ≡ new_config v device later uuid' ∷ new_config u device now uuid ∷ []
  unfolding write_config new_config
  write_config_twice u v device now later uuid uuid' [] [] s empty e e' done done' =
      elim (Option-cases (insert same_config (new_config u device now uuid) s.ddns_configs)) [
        | inl f ↦ ground arith
        | inr (t, f) ↦
            elim (Option-cases (insert same_config (new_config v device later uuid') t)) [
              | inl g ↦ ground arith
              | inr (t', g) ↦ ground (
                arith,
                insert_lem same_config _ s.ddns_configs f,
                insert_lem same_config _ t g,
                eq_refl device,
              )
            ]
      ]
  write_config_twice u v device now later uuid uuid' (c ∷ cs) found' s empty e e' done done' =
      cc (Perm.eq-nil (rw empty at (select_lem (of_device device) s.ddns_configs e)))
  write_config_twice u v device now later uuid uuid' [] (c ∷ cs) s empty e e' done done' =
      cc (Perm.eq-nil (rw empty at (select_lem (of_device device) s.ddns_configs e')))
