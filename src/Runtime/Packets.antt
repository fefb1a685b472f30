-- ===== src/Runtime/Packets.antt =====
-- src/runtime.rs: `Runtime::packet`, the delivery of a client's packet at an exported inport.
pub mod Settled
use flowd.Base.{
  ℕ, zero, suc, ◌+◌, ◌≤◌, ◌<◌, ◌≡◌, refl, Bool, true, false, Option, none, some, List, [], ◌∷◌,
  ◌++◌, if◌then◌else◌, ltb, leb, Str, Result, ok, err, not_found, timed_out, HashMap, get, insert,
  length, arith, inl, inr, ◌⊎◌, ◌∙◌, subst, Option-cases, Bool-cases, leb→le, le→leb, sym,
}
use flowd.Runtime.Secrets.{Secrets, validate_secret}
use flowd.Runtime.Start.{Attempt, returns, fails, panics}
use flowd.Runtime.Start.Channels.{Channel}

-- `RuntimePacketRequestPayload`, the fields that are read.
pub record PacketPayload : Type 0 where
  pub port : Str
  pub graph : Str
  pub payload : Option Str
  pub secret : Option Str

-- `inport_push_grace_dur`, in nanoseconds.
abbrev pub inport_push_grace_dur : ℕ
inport_push_grace_dur = 2000000000

-- What other threads make of the inports between the attempts, and the time that has passed since the
-- first one: `inports i` is what the attempt `i` finds, and `elapsed i` the time that it reads.
module _ (inports : ℕ → Option (HashMap Channel)) (elapsed : ℕ → ℕ) where
  -- The loop, from the attempt `i` on, for so many attempts at most.
  unfoldable pub packet_loop : ℕ → ℕ → Str → Str → Option (Attempt (HashMap Channel))
  packet_loop zero i port text = none
  packet_loop (suc n) i port text =
      let rest = packet_loop n (i + 1) port text in
      elim (inports i) [
        | none ↦ some (fails not_found)
        | some ports ↦ elim (get port ports) [
          | none ↦ some (fails not_found)
          | some c ↦
              if ltb (length c.contents) c.capacity
              then some
                  (returns (insert port (record c { contents = c.contents ++ text ∷ [] }) ports))
              else if leb inport_push_grace_dur (elapsed i)
              then some (fails timed_out)
              else rest
        ]
      ]

  unfoldable pub packet : ℕ → PacketPayload → Secrets → Option (Attempt (HashMap Channel))
  unfolding validate_secret packet_loop
  packet n p secrets = elim (validate_secret p.secret p.graph secrets) [
    | err e ↦ some (fails e)
    | ok u ↦ elim p.payload [ none ↦ some panics | some text ↦ packet_loop n 0 p.port text ]
  ]
