-- ===== src/Memory/Calls/Effects/Forgets.antt =====
-- msp_memory_forget and msp_memory_decay_tick: what a call that succeeds has done.
use memory_and_soul_passport.Prelude.{
  ℕ, String, ◌≡◌, refl, sym, ap, subst, ◌∙◌, ◌⊎◌, inl, inr, Bool, true, false, not, Option, some,
  List, arith, if◌then◌else◌, Bool-cases,
}
use memory_and_soul_passport.Errors.{ok, >>=-eq-ok, state_after}
use memory_and_soul_passport.Grant.{Grant}
use memory_and_soul_passport.Nonces.{NonceRow}
use memory_and_soul_passport.Vaults.{Vault, get_vault_by_id}
use memory_and_soul_passport.Entities.{Entity, Store}
use memory_and_soul_passport.Entities.Upsert.Outcome.{ok-injective}
use memory_and_soul_passport.Entities.Reach.{forget_op, decay_op, apply}
use memory_and_soul_passport.Memory.{
  Times, check_access, consume_authorized_grant, require_known_vault, vault_of_entity,
}
use memory_and_soul_passport.Memory.Tools.{Tables, Server, require_string, log, spend}
use memory_and_soul_passport.Memory.Reads.{require_entity}
use memory_and_soul_passport.Memory.Calls.{forget as forget_call, decay_tick as decay_call}
use memory_and_soul_passport.Memory.Calls.Effects.{
  frame, links_inside, require_known_vault_sound, vault_of_entity_sound, apply_here, IsStep,
  spend_sound, spend_then_sound, SameCore, log-SameCore,
}
use memory_and_soul_passport.Entities.Forget.{forget}
use memory_and_soul_passport.Entities.Decay.{Report, run_decay_tick}
use memory_and_soul_passport.Memory.Tools.{resolve_actor}
use memory_and_soul_passport.Memory.{is_true}
use memory_and_soul_passport.Memory.Writes.{
  forget_envelope, decay_tick_envelope, ForgetRequest, DecayRequest, is_pinned, no_report,
  forget_write, memory_forget, decay_store, decay_write, memory_decay_tick,
}

module _ {Score : Type 0} (server : Server Score) where
  pub memory_forget-IsStep :
      (r : ForgetRequest) (times : Times) (t t' : Tables Score) (d : Entity Score)
      → memory_forget server r times t ≡ ok (t', d)
      → IsStep server (forget_call r) times t t'
  unfolding memory_forget forget_write apply
  memory_forget-IsStep r times t t' d h =
      let (id, _, h₁) = >>=-eq-ok (require_string r.entity_id) _ h in
      let (reason, _, h₂) = >>=-eq-ok (require_string r.reason) _ h₁ in
      let (e, is_e, h₃) = >>=-eq-ok (require_entity id t.store) _ h₂ in
      let (v, known, h₄) = >>=-eq-ok (vault_of_entity e.vault_id t.registry) _ h₃ in
      let (g, checked, h₅) =
        >>=-eq-ok
          (check_access server.gate t.registry v (forget_envelope server.gate r) true
            times.granted_at)
          _ h₄ in
      let ((t₁, w), wrote, h₆) =
        >>=-eq-ok (forget_write server v g e reason (resolve_actor r.actor) times t) _ h₅ in
      let (t₂, logged, h₇) = >>=-eq-ok (log server _ _) _ h₆ in
      let (same, _) = ok-injective h₇ in
      let (found, named) = vault_of_entity_sound e.vault_id t.registry known in
      let (a, b, c) = subst (SameCore server t₁) same (log-SameCore server _ t₁ logged) in
      let (a', b', c') =
        spend_then_sound server v g times t t₁ w
          (forget e.vault_id e.category e.key (some reason) (resolve_actor r.actor)
            times.written_at)
          wrote in
      record {
        vault = v;
        grant = g;
        target = subst (λ x. get_vault_by_id x t.registry ≡ some v) (sym named) found;
        checked = checked;
        registry_after = ap (λ x. x.0) (a ∙ a');
        links_after = λ w other. ap (λ x. links_inside w x.1) (a ∙ a');
        nonces_after = b' ∙ ap (λ x. ok x) (sym b);
        store_after = inr (
          forget_op e.vault_id e.category e.key (some reason) (resolve_actor r.actor)
              times.written_at,
          sym named,
          c ∙ sym (ap (λ x. state_after t.store x) c'),
        );
      }

  -- A pinned vault is left as it is; any other goes through one sweep.
  decay_store_sound :
      (v : Vault) (id : String) (dry_run : Bool) (now : ℕ) (s s' : Store Score) (report : Report)
      → decay_store server v id dry_run now s ≡ ok (s', report)
      → (s' ≡ s) ⊎ (s' ≡ apply_here server (decay_op server.thresholds id dry_run now) s)
  unfolding decay_store apply
  decay_store_sound v id dry_run now s s' report h = elim (Bool-cases (is_pinned v.decay_policy)) [
    | inl pinned ↦
        let kept : decay_store server v id dry_run now s ≡ ok (s, no_report) =
          rw (decay_store, pinned) refl in
        let (a, b) = ok-injective (sym h ∙ kept) in inl a
    | inr swept ↦
        let ran : decay_store server v id dry_run now s
            ≡ run_decay_tick server.scores server.thresholds id dry_run now s =
          rw (decay_store, swept) refl in
        inr (sym (ap (λ x. state_after s x) (sym ran ∙ h)))
  ]

  -- A dry run spends nothing.
  spend_unless_sound :
      (dry_run : Bool) (v : Vault) (g : Option Grant) (times : Times) (t : Tables Score)
      {t' : Tables Score}
      → (if dry_run then ok t else spend server v g times t) ≡ ok t'
      → (rows : List NonceRow) × ((if not dry_run
            then consume_authorized_grant v g times t.nonces
            else ok t.nonces)
          ≡ ok rows)
        × (t' ≡ record t { nonces = rows })
  spend_unless_sound true v g times t h = (t.nonces, refl, ground arith)
  spend_unless_sound false v g times t h = spend_sound server v g times t h

  decay_write_sound :
      (v : Vault) (g : Option Grant) (id : String) (dry_run : Bool) (actor : String) (times : Times)
      (t t' : Tables Score) (report : Report)
      → decay_write server v g id dry_run actor times t ≡ ok (t', report)
      → (frame t' ≡ frame t)
        × ((if not dry_run then consume_authorized_grant v g times t.nonces else ok t.nonces)
            ≡ ok t'.nonces)
        × ((t'.store ≡ t.store)
            ⊎ (t'.store
                ≡ apply_here server
                    (decay_op server.thresholds id dry_run times.written_at)
                    t.store))
  unfolding decay_write
  decay_write_sound v g id dry_run actor times t t' report h =
      let (t₁, spent, h₁) = >>=-eq-ok (if dry_run then ok t else spend server v g times t) _ h in
      let (rows, consumed, is₁) = spend_unless_sound dry_run v g times t spent in
      let ((s, report'), swept, h₂) =
        >>=-eq-ok (decay_store server v id dry_run times.written_at t₁.store) _ h₁ in
      let (t₂, logged, h₃) = >>=-eq-ok (log server _ _) _ h₂ in
      let (same, _) = ok-injective h₃ in
      let (a, b, c) =
        subst (SameCore server (record t₁ { store = s })) same (log-SameCore server _ _ logged) in
      let store₁ : t₁.store ≡ t.store = ap (λ x. x.store) is₁ in
      let swept' =
        subst (λ x. decay_store server v id dry_run times.written_at x ≡ ok (s, report')) store₁
          swept in
      (
        a ∙ ap (λ x. frame x) is₁,
        consumed ∙ ap (λ x. ok x) (sym (b ∙ ap (λ x. x.nonces) is₁)),
        elim (decay_store_sound v id dry_run times.written_at t.store s report' swept') [
          | inl kept ↦ inl (c ∙ kept)
          | inr ran ↦ inr (c ∙ ran)
        ],
      )

  pub memory_decay_tick-IsStep :
      (r : DecayRequest) (times : Times) (t t' : Tables Score) (report : Report)
      → memory_decay_tick server r times t ≡ ok (t', report)
      → IsStep server (decay_call r) times t t'
  unfolding memory_decay_tick
  memory_decay_tick-IsStep r times t t' report h =
      let (id, _, h₁) = >>=-eq-ok (require_string r.vault_id) _ h in
      let (v, known, h₂) = >>=-eq-ok (require_known_vault id t.registry) _ h₁ in
      let (g, checked, h₃) =
        >>=-eq-ok
          (check_access server.gate t.registry v (decay_tick_envelope server.gate r)
            (not (is_true r.dry_run)) times.granted_at)
          _ h₂ in
      let (found, named) = require_known_vault_sound id t.registry known in
      let (a, b, c) =
        decay_write_sound v g id (is_true r.dry_run) (resolve_actor r.actor) times t t' report h₃ in
      record {
        vault = v;
        grant = g;
        target = subst (λ x. get_vault_by_id x t.registry ≡ some v) (sym named) found;
        checked = checked;
        registry_after = ap (λ x. x.0) a;
        links_after = λ w other. ap (λ x. links_inside w x.1) (a);
        nonces_after = b;
        store_after = elim c [
          | inl kept ↦ inl kept
          | inr ran ↦
              inr
                (decay_op server.thresholds id (is_true r.dry_run) times.written_at, sym named, ran)
        ];
      }
