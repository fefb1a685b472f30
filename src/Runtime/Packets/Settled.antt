-- ===== src/Runtime/Packets/Settled.antt =====
-- src/runtime.rs: the delivery of a packet ends, and how.
use flowd.Base.{
  ℕ, zero, suc, ◌+◌, ◌≤◌, ◌<◌, ◌≡◌, refl, true, false, Option, none, some, [], ◌∷◌, ◌++◌, ltb, leb,
  Str, ok, not_found, timed_out, HashMap, get, insert, length, arith, inl, inr, ◌⊎◌, ◌∙◌, subst,
  Option-cases, Bool-cases, leb→le, le→leb, sym,
}
use flowd.Runtime.Secrets.{Secrets, validate_secret}
use flowd.Runtime.Start.{Attempt, returns, fails}
use flowd.Runtime.Start.Channels.{Channel}
use flowd.Runtime.Packets.{PacketPayload, inport_push_grace_dur, packet_loop, packet}

module _ (inports : ℕ → Option (HashMap Channel)) (elapsed : ℕ → ℕ) where
  -- The attempt `i` finds the port full, and there is time left.
  pub record Waits (port : Str) (i : ℕ) : Type 0 where
    pub ports : HashMap Channel
    pub channel : Channel
    pub found : inports i ≡ some ports
    pub has : get port ports ≡ some channel
    pub full : ltb (length channel.contents) channel.capacity ≡ false
    pub early : elapsed i < inport_push_grace_dur

  -- What the attempt `i` finds, and what it therefore returns.
  pub data Ends (port text : Str) (i : ℕ) : Attempt (HashMap Channel) → Type 0 where
    has_none : inports i ≡ none → Ends port text i (fails not_found)
    has_no_port :
        (ports : HashMap Channel)
        → inports i ≡ some ports
        → get port ports ≡ none
        → Ends port text i (fails not_found)
    has_room :
        (ports : HashMap Channel) (c : Channel)
        → inports i ≡ some ports
        → get port ports ≡ some c
        → ltb (length c.contents) c.capacity ≡ true
        → Ends port text i
            (returns (insert port (record c { contents = c.contents ++ text ∷ [] }) ports))
    has_waited :
        (ports : HashMap Channel) (c : Channel)
        → inports i ≡ some ports
        → get port ports ≡ some c
        → ltb (length c.contents) c.capacity ≡ false
        → inport_push_grace_dur ≤ elapsed i
        → Ends port text i (fails timed_out)

  -- The loop ends at an attempt between `i` and `last`, after those before had to wait.
  pub record Settled (port text : Str) (i last : ℕ) (o : Option (Attempt (HashMap Channel)))
      : Type 0 where
    pub attempt : ℕ
    pub result : Attempt (HashMap Channel)
    pub is_result : o ≡ some result
    pub starts : i ≤ attempt
    pub stops : attempt ≤ last
    pub ends : Ends port text attempt result
    pub waits : (k : ℕ) → i ≤ k → k < attempt → Waits port k

  now-Settled :
      (port text : Str) (i last : ℕ) (a : Attempt (HashMap Channel))
      (o : Option (Attempt (HashMap Channel)))
      → o ≡ some a
      → i ≤ last
      → Ends port text i a
      → Settled port text i last o
  now-Settled port text i last a o e le ends = record {
    attempt = i;
    result = a;
    is_result = e;
    starts = omega arith;
    stops = le;
    ends = ends;
    waits = λ k l m. absurd (omega (arith, l, m));
  }

  later-Settled :
      (port text : Str) (i last : ℕ) (o o' : Option (Attempt (HashMap Channel)))
      → o' ≡ o
      → Waits port i
      → Settled port text (i + 1) last o
      → Settled port text i last o'
  later-Settled port text i last o o' e w s = record {
    attempt = s.attempt;
    result = s.result;
    is_result = e ∙ s.is_result;
    starts = omega (arith, s.starts);
    stops = s.stops;
    ends = s.ends;
    waits = λ k l m. elim (eq_or_later i k l) [
      | inl same ↦ subst (Waits port) same w
      | inr later ↦ s.waits k later m
    ];
  }
    where
      eq_or_later : (i k : ℕ) → i ≤ k → (i ≡ k) ⊎ (i + 1 ≤ k)
      eq_or_later i k l = omega arith

  packet_loop_step :
      (n i last : ℕ) (port text : Str)
      → i ≤ last
      → ((leb inport_push_grace_dur (elapsed i) ≡ false)
          → Settled port text (i + 1) last (packet_loop inports elapsed n (i + 1) port text))
      → Settled port text i last (packet_loop inports elapsed (suc n) i port text)
  unfolding packet_loop
  packet_loop_step n i last port text le next = elim (Option-cases (inports i)) [
    | inl lost ↦ now-Settled port text i last _ _ (rw (lost, packet_loop) refl) le (has_none lost)
    | inr (ports, found) ↦ elim (Option-cases (get port ports)) [
      | inl lost ↦
          now-Settled port text i last _ _ (rw (found, lost, packet_loop) refl) le
            (has_no_port ports found lost)
      | inr (c, has) ↦ elim (Bool-cases (ltb (length c.contents) c.capacity)) [
        | inl room ↦
            now-Settled port text i last _ _ (rw (found, has, room, packet_loop) refl) le
              (has_room ports c found has room)
        | inr full ↦ elim (Bool-cases (leb inport_push_grace_dur (elapsed i))) [
          | inl late ↦
              now-Settled port text i last _ _ (rw (found, has, full, late, packet_loop) refl) le
                (has_waited ports c found has full (leb→le inport_push_grace_dur (elapsed i) late))
          | inr early ↦
              later-Settled port text i last _ _ (rw (found, has, full, early, packet_loop) refl)
                (record {
                  ports = ports;
                  channel = c;
                  found = found;
                  has = has;
                  full = full;
                  early = ground (arith, early);
                })
                (next early)
        ]
      ]
    ]
  ]

  packet_loop-Settled :
      (n i last : ℕ) (port text : Str)
      → i + n ≡ last
      → inport_push_grace_dur ≤ elapsed last
      → Settled port text i last (packet_loop inports elapsed (suc n) i port text)
  packet_loop-Settled zero i last port text e late =
      packet_loop_step zero i last port text (omega (arith, e)) (λ early. absurd (
        true_is_false (
          sym (le→leb _ _ (subst (λ j. inport_push_grace_dur ≤ elapsed j) (at_last e) late))
          ∙ early)))
    where
      at_last : i + 0 ≡ last → last ≡ i
      at_last q = omega (arith, q)

      true_is_false : true ≡ false → ⊥
      true_is_false q = cc
  packet_loop-Settled (suc n) i last port text e late =
      packet_loop_step (suc n) i last port text (omega (arith, e))
        (λ early. packet_loop-Settled n (i + 1) last port text (omega (arith, e)) late)

  -- A packet that its secret allows and that has a payload is settled by the attempt that first reads
  -- that the grace time is over, if not before: each attempt until then found the inport full, and
  -- the one that settles it appends it, or finds no such inport, or gives up.
  pub packet-Settled :
      (last : ℕ) (p : PacketPayload) (text : Str) (secrets : Secrets)
      → validate_secret p.secret p.graph secrets ≡ ok tt
      → p.payload ≡ some text
      → inport_push_grace_dur ≤ elapsed last
      → Settled p.port text 0 last (packet inports elapsed (suc last) p secrets)
  unfolding packet
  packet-Settled last p text secrets may has late =
      rw (may, has, packet) (packet_loop-Settled last 0 last p.port text (omega arith) late)
