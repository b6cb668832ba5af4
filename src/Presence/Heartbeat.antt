-- ===== src/Presence/Heartbeat.antt =====
-- The time to live of `presence:online:{user}` (src/presence/presence.service.ts) and the timer of a
-- connection that renews it (`handleConnection`, src/realtime/realtime.gateway.ts), in milliseconds.
use intaektok_be.Prelude.{
  ℕ, ◌+◌, ◌-◌, ◌*◌, ◌/◌, ◌≤◌, ◌<◌, Bool, true, false, ltb, if◌then◌else◌, ◌↔◌, Bool-cases, inl, inr,
  ◌≡◌, refl, arith,
}

-- `Math.max(1, Math.floor(ttl / 2)) * 1000`
unfoldable pub interval : ℕ → ℕ
interval ttl = (if ltb 1 (ttl / 2) then ttl / 2 else 1) * 1000

-- The time, when the key expires, when the timer of the connection fires next, and whether the node
-- that holds the connection still runs.
pub record Clock : Type 0 where
  pub now : ℕ
  pub expires_at : ℕ
  pub next_beat : ℕ
  pub runs : Bool

-- `addConnection` and `setInterval`
abbrev pub connected : ℕ → ℕ → Clock
connected ttl now = record {
  now = now;
  expires_at = now + ttl * 1000;
  next_beat = now + interval ttl;
  runs = true;
}

-- The key is there.
abbrev pub is_live : Clock → Bool
is_live c = ltb c.now c.expires_at

-- `refresh`: EXPIRE does nothing to a key that is gone.
abbrev pub refreshed : ℕ → Clock → Clock
refreshed ttl c = if is_live c then record c { expires_at = c.now + ttl * 1000 } else c

-- What happens to one connection: to what it leads.
pub data Own (ttl : ℕ) (c : Clock) : Clock → Type 0 where
  -- time passes, while the node runs not past the timer
  wait :
      (d : ℕ) → (c.runs ≡ true → c.now + d ≤ c.next_beat) → Own ttl c (record c { now = c.now + d })
  -- the timer fires, and starts over
  beat :
      c.runs ≡ true
      → c.now ≡ c.next_beat
      → Own ttl c (record (refreshed ttl c) { next_beat = c.now + interval ttl })
  -- the node stops
  crash : Own ttl c (record c { runs = false })

pub data Step (ttl : ℕ) (c : Clock) : Clock → Type 0 where
  own : {d : Clock} → Own ttl c d → Step ttl c d
  -- another connection of the user comes (`addConnection`), or its timer fires
  joined : Step ttl c (record c { expires_at = c.now + ttl * 1000 })
  renewed : Step ttl c (refreshed ttl c)

pub data Reach (ttl start : ℕ) : Clock → Type 0 where
  begin : Reach ttl start (connected ttl start)
  later : {c d : Clock} → Reach ttl start c → Step ttl c d → Reach ttl start d

-- The same for a user with no other connection.
pub data Alone (ttl start : ℕ) : Clock → Type 0 where
  begin_alone : Alone ttl start (connected ttl start)
  later_alone : {c d : Clock} → Alone ttl start c → Own ttl c d → Alone ttl start d

interval_lt : (ttl : ℕ) → 2 ≤ ttl → interval ttl < ttl * 1000
unfolding interval
interval_lt ttl h = ground arith

longer : (ttl : ℕ) → interval ttl < ttl * 1000 → 2 ≤ ttl
unfolding interval
longer ttl h = ground (arith, h)

ltb_lt : (a b c : ℕ) → ltb (a + b) (a + c) ≡ true → b < c
ltb_lt a b c h = ground (arith, h)

-- The moment before the timer fires for the first time.
late :
    (ttl start : ℕ) → Reach ttl start (record (connected ttl start) { now = start + interval ttl })
late ttl start = later begin (own (wait (interval ttl) (λ _. omega arith)))

record Kept (ttl : ℕ) (c : Clock) : Type 0 where
  ahead : c.runs ≡ true → c.now ≤ c.next_beat
  near : c.runs ≡ true → c.next_beat ≤ c.now + interval ttl
  spare : c.runs ≡ true → c.next_beat + (ttl * 1000 - interval ttl) ≤ c.expires_at

-- With time to spare the key is there when the timer fires.
on_time : (ttl : ℕ) (c : Clock) → 2 ≤ ttl → Kept ttl c → c.runs ≡ true → is_live c ≡ true
on_time ttl c h k r = ground (arith, k.ahead r, k.spare r, interval_lt ttl h)

Own-Kept : (ttl : ℕ) {c d : Clock} → 2 ≤ ttl → Own ttl c d → Kept ttl c → Kept ttl d
Own-Kept ttl two (wait d h) k = record {
  ahead = λ r. h r;
  near = λ r. omega (arith, k.near r);
  spare = k.spare;
}
Own-Kept ttl {c} two (beat r e) k = rw (on_time ttl c two k r) (record {
  ahead = λ _. omega arith;
  near = λ _. omega arith;
  spare = λ _. omega (arith, interval_lt ttl two);
})
Own-Kept ttl two crash k = record {
  ahead = λ r. absurd (ground (arith, r));
  near = λ r. absurd (ground (arith, r));
  spare = λ r. absurd (ground (arith, r));
}

joined-Kept :
    (ttl : ℕ) (c : Clock)
    → 2 ≤ ttl
    → Kept ttl c
    → Kept ttl (record c { expires_at = c.now + ttl * 1000 })
joined-Kept ttl c two k = record {
  ahead = k.ahead;
  near = k.near;
  spare = λ r. omega (arith, interval_lt ttl two, k.near r);
}

Step-Kept : (ttl : ℕ) {c d : Clock} → 2 ≤ ttl → Step ttl c d → Kept ttl c → Kept ttl d
Step-Kept ttl two (own o) k = Own-Kept ttl two o k
Step-Kept ttl {c} two joined k = joined-Kept ttl c two k
Step-Kept ttl {c} two renewed k = elim (Bool-cases (is_live c)) [
  | inl e ↦ rw e (joined-Kept ttl c two k)
  | inr e ↦ rw e k
]

Reach-Kept : (ttl start : ℕ) {c : Clock} → 2 ≤ ttl → Reach ttl start c → Kept ttl c
Reach-Kept ttl start two begin = record {
  ahead = λ _. omega arith;
  near = λ _. omega arith;
  spare = λ _. omega (arith, interval_lt ttl two);
}
Reach-Kept ttl start two (later r s) = Step-Kept ttl two s (Reach-Kept ttl start two r)

-- The key never lasts longer than its time to live.
soon : (ttl start : ℕ) {c : Clock} → Reach ttl start c → c.expires_at ≤ c.now + ttl * 1000
soon ttl start begin = omega arith
soon ttl start (later r (own (wait d h))) = omega (arith, soon ttl start r)
soon ttl start (later {c} r (own (beat e n))) = ground (arith, soon ttl start r)
soon ttl start (later r (own crash)) = soon ttl start r
soon ttl start (later r joined) = omega arith
soon ttl start (later {c} r renewed) = ground (arith, soon ttl start r)

-- With a second to live the key of a lone connection is gone whenever its timer fires.
record Lost (start : ℕ) (c : Clock) : Type 0 where
  fixed : c.expires_at ≡ start + 1000
  after : start + 1000 ≤ c.next_beat

Own-Lost : (start : ℕ) {c d : Clock} → Own 1 c d → Lost start c → Lost start d
Own-Lost start (wait d h) k = record { fixed = k.fixed; after = k.after }
Own-Lost start {c} (beat r e) k =
    rw gone (record { fixed = k.fixed; after = omega (arith, k.after, e) })
  where
    gone : is_live c ≡ false
    gone = ground (arith, k.fixed, k.after, e)
Own-Lost start crash k = record { fixed = k.fixed; after = k.after }

Alone-Lost : (start : ℕ) {c : Clock} → Alone 1 start c → Lost start c
unfolding interval
Alone-Lost start begin_alone = record { fixed = omega arith; after = omega arith }
Alone-Lost start (later_alone r o) = Own-Lost start o (Alone-Lost start r)

-- With a time to live of two seconds or more, a user whose connection's node runs never stops being
-- online; with one of a second the key can expire before the timer renews it, and a user with no other
-- connection is then offline for good, since the timer does not bring the key back. If nothing renews the
-- key, the user is offline after the time to live.
pub presence_outlives :
    (ttl start : ℕ)
    → ((2 ≤ ttl) ↔ ((c : Clock) → Reach ttl start c → c.runs ≡ true → is_live c ≡ true))
      × ((c : Clock) → Alone 1 start c → start + 1000 ≤ c.now → is_live c ≡ false)
      × ((c : Clock) → Reach ttl start c → is_live (record c { now = c.now + ttl * 1000 }) ≡ false)
presence_outlives ttl start = (
  (
    (λ h c r runs. on_time ttl c h (Reach-Kept ttl start h r) runs),
    λ all. longer ttl (ltb_lt start (interval ttl) (ttl * 1000) (all _ (late ttl start) refl)),
  ),
  (λ c r late. ground (arith, (Alone-Lost start r).fixed, late)),
  λ c r. ground (arith, soon ttl start r),
)
