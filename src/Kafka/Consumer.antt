-- ===== src/Kafka/Consumer.antt =====
-- src/kafka/consumer.rs: the audit consumer's loop, at least once and in order.
pub mod Audit
pub mod Retries
pub mod Order
use dream_fly_backend.Prelude.{
  ℕ, zero, suc, ◌+◌, ◌-◌, ◌^◌, ℤ, pos, ◌+ℤ◌, leb, String, Bool, true, false, Option, none, some,
  List, [], ◌∷◌, if◌then◌else◌,
}

pub data ProcessingError : Type 0 where
  transient poison : String → ProcessingError

-- `MAX_ATTEMPTS`
abbrev pub max_attempts : ℕ
max_attempts = 5

pub record SourceMessage : Type 0 where
  pub topic : String
  pub partition : ℤ
  pub offset : ℤ
  pub payload : Option (List ℕ)

-- What `source.commit` is asked: the next record to read.
pub record Position : Type 0 where
  pub topic : String
  pub partition : ℤ
  pub offset : ℤ

abbrev pub position_after : SourceMessage → Position
position_after msg = record {
  topic = msg.topic;
  partition = msg.partition;
  offset = msg.offset +ℤ pos 1;
}

pub data Resolution : Type 0 where
  commit shutdown : Resolution

-- `resolve`'s answer, with the handler's state and how often the handler was called.
pub record Resolved (S : Type 0) : Type 0 where
  pub resolution : Resolution
  pub calls : ℕ
  pub state : S

-- What wakes the loop: the shutdown watch, with its value, or a message, with the attempts after
-- which shutdown arrives during the backoff. The stream ends with the list.
pub data Wakeup : Type 0 where
  changed : Bool → Wakeup
  message : SourceMessage → (ℕ → Bool) → Wakeup

pub data Exit : Type 0 where
  stream_ended stopped : Exit

pub record Consumed (S : Type 0) : Type 0 where
  pub commits : List Position
  pub state : S
  pub exit : Exit

-- A handler answers `none` for `Ok(())`; `from_utf8` decodes a payload.
module _ {S : Type 0} (handle : String → S → Option ProcessingError × S) where
  -- The loop of `resolve`, by the attempts that are left after this one.
  unfoldable pub resolve_loop : ℕ → (ℕ → Bool) → String → ℕ → S → Option (Resolved S)
  resolve_loop zero stops payload attempt s = none
  resolve_loop (suc fuel) stops payload attempt s =
      let s' = (handle payload s).1 in
      let again = resolve_loop fuel stops payload (suc attempt) s' in
      let committed = some (record { resolution = commit; calls = attempt; state = s' }) in
      elim (handle payload s).0 [
        | none ↦ committed
        | some (poison reason) ↦ committed
        | some (transient reason) ↦
            if leb max_attempts attempt
            then committed
            else if stops attempt
            then some (record { resolution = shutdown; calls = attempt; state = s' })
            else again
      ]

  module _ (from_utf8 : List ℕ → Option String) where
    -- An absent payload and one that is not UTF-8 are committed unhandled.
    abbrev pub skipped : S → Resolved S
    skipped s = record { resolution = commit; calls = 0; state = s }

    unfoldable pub resolve : SourceMessage → (ℕ → Bool) → S → Option (Resolved S)
    resolve msg stops s = elim msg.payload [
      | none ↦ some (skipped s)
      | some bytes ↦ elim (from_utf8 bytes) [
        | none ↦ some (skipped s)
        | some payload ↦ resolve_loop max_attempts stops payload 1 s
      ]
    ]

    -- A commit that fails is only logged: `commits` are those asked of the source.
    abbrev pub add_commit : SourceMessage → Consumed S → Consumed S
    add_commit msg c = record c { commits = position_after msg ∷ c.commits }

    abbrev pub and_commit : SourceMessage → Option (Consumed S) → Option (Consumed S)
    and_commit msg none = none
    and_commit msg (some c) = some (add_commit msg c)

    unfoldable pub run : List Wakeup → S → Option (Consumed S)
    run [] s = some (record { commits = []; state = s; exit = stream_ended })
    run (changed true ∷ ws) s = some (record { commits = []; state = s; exit = stopped })
    run (changed false ∷ ws) s = run ws s
    run (message msg stops ∷ ws) s = elim (resolve msg stops s) [
      | none ↦ none
      | some r ↦ elim r.resolution [
        | commit ↦ and_commit msg (run ws r.state)
        | shutdown ↦ some (record { commits = []; state = r.state; exit = stopped })
      ]
    ]
