-- ===== src/Memory/Calls.antt =====
-- The object that createMemoryHandlers of memory-handlers.mjs returns: one call of any tool, and
-- sequences of calls.
pub mod Effects
pub mod Owners
pub mod Once
pub mod Hidden
use memory_and_soul_passport.Prelude.{
  ℕ, String, Bool, true, false, not, Option, none, some, List, [], ◌∷◌,
}
use memory_and_soul_passport.Errors.{Result, ok, err, ◌>>=◌, state_after}
use memory_and_soul_passport.Grant.{Claim}
use memory_and_soul_passport.Entities.{Entity}
use memory_and_soul_passport.Entities.{Upserted}
use memory_and_soul_passport.Entities.Decay.{Report}
use memory_and_soul_passport.Entities.Read.{Found}
use memory_and_soul_passport.Links.{Link, LinkCreated}
use memory_and_soul_passport.Memory.{Gate, Envelope, Times, is_true}
use memory_and_soul_passport.Memory.Tools.{
  Tables, Server, UpsertRequest, memory_upsert, upsert_envelope,
}
use memory_and_soul_passport.Memory.Reads.{
  GetRequest, ListRequest, EntityRequest, HistoryEntry, memory_get, memory_list, memory_history,
  memory_links_list, get_envelope, list_envelope, history_envelope, links_list_envelope,
}
use memory_and_soul_passport.Memory.Writes.{
  ForgetRequest, DecayRequest, LinkRequest, memory_forget, memory_decay_tick, memory_links_create,
  forget_envelope, decay_tick_envelope, links_create_envelope,
}

pub data Call : Type 0 where
  upsert : UpsertRequest → Call
  get : GetRequest → Call
  list : ListRequest → Call
  history : EntityRequest → Call
  forget : ForgetRequest → Call
  decay_tick : DecayRequest → Call
  links_list : EntityRequest → Claim → Call
  links_create : LinkRequest → Call

pub data Answer (Score : Type 0) : Type 0 where
  upserted : Upserted Score → Answer Score
  got : Found Score → Answer Score
  listed : List (Entity Score) → Option String → Answer Score
  versions_are : List HistoryEntry → Answer Score
  forgotten : Entity Score → Answer Score
  ticked : Report → Answer Score
  links_are : List Link → Answer Score
  linked : LinkCreated → Answer Score

abbrev pub envelope_of : Gate → Call → Envelope
envelope_of gate (upsert r) = upsert_envelope gate r
envelope_of gate (get r) = get_envelope gate r
envelope_of gate (list r) = list_envelope gate r
envelope_of gate (history r) = history_envelope gate r
envelope_of gate (forget r) = forget_envelope gate r
envelope_of gate (decay_tick r) = decay_tick_envelope gate r
envelope_of gate (links_list r d) = links_list_envelope gate r d
envelope_of gate (links_create r) = links_create_envelope gate r

-- The calls that spend the nonce of their grant.
abbrev pub needs_nonce : Call → Bool
needs_nonce (upsert r) = true
needs_nonce (forget r) = true
needs_nonce (decay_tick r) = not (is_true r.dry_run)
needs_nonce (links_create r) = true
needs_nonce _ = false

abbrev pub map_answer {ℓ} :
    {State : Type ℓ} {Value : Type ℓ} {Said : Type ℓ}
    → (Value → Said)
    → Result (State × Value)
    → Result (State × Said)
map_answer f (err e) = err e
map_answer f (ok (s, v)) = ok (s, f v)

abbrev pub read_answer {ℓ} :
    {State : Type ℓ} {Value : Type ℓ} {Said : Type ℓ}
    → (Value → Said)
    → State
    → Result Value
    → Result (State × Said)
read_answer f s (err e) = err e
read_answer f s (ok v) = ok (s, f v)

module _ {Score : Type 0} (server : Server Score) where
  unfoldable pub answer : Call → Times → Tables Score → Result (Tables Score × Answer Score)
  answer (upsert r) times t = map_answer upserted (memory_upsert server r times t)
  answer (get r) times t = map_answer got (memory_get server r times t)
  answer (list r) times t = read_answer (λ p. listed p.0 p.1) t (memory_list server r times t)
  answer (history r) times t = read_answer versions_are t (memory_history server r times t)
  answer (forget r) times t = map_answer forgotten (memory_forget server r times t)
  answer (decay_tick r) times t = map_answer ticked (memory_decay_tick server r times t)
  answer (links_list r d) times t = read_answer links_are t (memory_links_list server r d times t)
  answer (links_create r) times t = map_answer linked (memory_links_create server r times t)

  -- The tables after a call: one that throws has written nothing.
  unfoldable pub after_call : Call × Times → Tables Score → Tables Score
  unfolding answer
  after_call (c, times) t = state_after t (answer c times t)

  unfoldable pub after_calls : List (Call × Times) → Tables Score → Tables Score
  unfolding after_call
  after_calls [] t = t
  after_calls (c ∷ cs) t = after_calls cs (after_call c t)
