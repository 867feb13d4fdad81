-- ===== src/Memory/Histories.antt =====
-- What msp_memory_history and msp_memory_get promise on valid tables.
use memory_and_soul_passport.Prelude.{
  ◌≡◌, refl, sym, ap, ◌∙◌, false, some, List, [], ◌∷◌, map, select,
}
use memory_and_soul_passport.Errors.{ok, >>=-eq-ok}
use memory_and_soul_passport.Entities.{Entity, HistoryRow, get_by_id, has_id}
use memory_and_soul_passport.Entities.Upsert.{find_by_id}
use memory_and_soul_passport.Entities.Ledger.{up_to, IsValid}
use memory_and_soul_passport.Entities.Read.{of_entity, reverse_rows, history_of}
use memory_and_soul_passport.Entities.Read.History.{history_of_complete, versions_of}
use memory_and_soul_passport.Memory.{Times, check_access, vault_of_entity}
use memory_and_soul_passport.Memory.Tools.{Tables, Server, require_string}
use memory_and_soul_passport.Memory.Reads.{
  history_envelope, EntityRequest, HistoryEntry, entry_of, require_entity, memory_history,
}
use memory_and_soul_passport.Memory.Calls.Effects.{require_entity_sound}

version_of_entry :
    {Score : Type 0} (e : Entity Score) (rows : List HistoryRow)
    → map (λ h. h.row.version) (map (entry_of e) rows) ≡ versions_of rows
version_of_entry e [] = refl
version_of_entry e (r ∷ rows) = ap (λ vs. r.version ∷ vs) (version_of_entry e rows)

module _ {Score : Type 0} (server : Server Score) where
  -- Where the entity tables are valid, a successful msp_memory_history is of an entity of the table
  -- and returns every row of it in `entity_history`, with the entity's vault, category and key, and no
  -- other row: in the order of their versions 1, 2, ..., the current one.
  pub memory_history_complete :
      (r : EntityRequest) (times : Times) (t : Tables Score) (out : List HistoryEntry)
      → IsValid t.store
      → memory_history server r times t ≡ ok out
      → (e : Entity Score) × (get_by_id e.entity_id t.store ≡ some e)
        × (require_string r.entity_id ≡ ok e.entity_id)
        × (out ≡ map (entry_of e) (select (of_entity e.entity_id) t.store.history))
        × (map (λ h. h.row.version) out ≡ up_to e.current_version)
  unfolding memory_history
  memory_history_complete r times t out valid h =
      let (id, named, h₁) = >>=-eq-ok (require_string r.entity_id) _ h in
      let (e, required, h₂) = >>=-eq-ok (require_entity id t.store) _ h₁ in
      let (v, _, h₃) = >>=-eq-ok (vault_of_entity e.vault_id t.registry) _ h₂ in
      let (g, _, h₄) =
        >>=-eq-ok
          (check_access server.gate t.registry v (history_envelope server.gate r) false
            times.granted_at)
          _ h₃ in
      let (rows, read, h₅) = >>=-eq-ok (history_of e.vault_id e.category e.key t.store) _ h₄ in
      let (found, is_id) = require_entity_sound id t.store required in
      let (all, vs) = history_of_complete t.store e (has_id id) rows valid found read in
      let is : map (entry_of e) (reverse_rows rows) ≡ out = cc in
      (
        e,
        find_by_id (has_id id) t.store.entities e valid.ids found,
        named ∙ ap (λ x. ok x) (sym is_id),
        sym is ∙ ap (map (entry_of e)) all,
        ap (map (λ h. h.row.version)) (sym is) ∙ version_of_entry e (reverse_rows rows) ∙ vs,
      )
