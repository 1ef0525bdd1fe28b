-- ===== src/Auth/Limiter/Window.antt =====
-- The limiter, which forgets old attempts, beside one that remembers all of them.
use opencode_workspaces.Prelude.{
  ℕ, ◌+◌, ◌≡◌, refl, sym, ap, subst, ◌∙◌, String, Bool, true, false, List, [], ◌∷◌, ◌++◌, arith,
  keep, length, ltb, string_eq, if◌then◌else◌, ◌==◌, Bool-cases,
}
use opencode_workspaces.Rows.{find}
use opencode_workspaces.Rows.Laws.{find-upsert, find-remove}
use opencode_workspaces.Auth.Limiter.{
  Attempts, entry_key, attempts_at, set_attempts, is_recent, admit, allow, login_succeeded,
}

-- Every login that was allowed since the last success, by key: what the limit is about.
abbrev Memory : Type 0
Memory = String → List ℕ

pub data Event : Type 0 where
  attempted succeeded : String → Event

abbrev pub decide : ℕ → List ℕ → Bool
decide now allowed = ltb (length (keep (is_recent now) allowed)) 10

abbrev pub remember : Bool → ℕ → List ℕ → List ℕ
remember true now allowed = allowed ++ now ∷ []
remember false now allowed = allowed

-- The memory with another list at a key.
abbrev pub at_key : String → List ℕ → Memory → Memory
at_key key times memory k = if key == k then times else memory k

-- The decisions on a history of events, each with the time that passed before it, by the limiter,
abbrev pub decisions : ℕ → Attempts → List (ℕ × Event) → List Bool
decisions now attempts [] = []
decisions now attempts ((d, attempted key) ∷ events) =
    let (allowed, attempts') = allow (now + d) key attempts in
    allowed ∷ decisions (now + d) attempts' events
decisions now attempts ((d, succeeded key) ∷ events) =
    decisions (now + d) (login_succeeded key attempts) events

-- and from all the logins that were allowed: fewer than ten in the last ten minutes.
abbrev pub decisions_of : ℕ → Memory → List (ℕ × Event) → List Bool
decisions_of now memory [] = []
decisions_of now memory ((d, attempted key) ∷ events) =
    let allowed = decide (now + d) (memory key) in
    allowed
    ∷ decisions_of (now + d) (at_key key (remember allowed (now + d) (memory key)) memory) events
decisions_of now memory ((d, succeeded key) ∷ events) =
    decisions_of (now + d) (at_key key [] memory) events

recent_before : (now d t : ℕ) → is_recent (now + d) t ≡ true → is_recent now t ≡ true
unfolding is_recent
recent_before now d t h = ground arith

-- What is recent later was recent before.
keep_later :
    (now d : ℕ) (times : List ℕ)
    → keep (is_recent (now + d)) (keep (is_recent now) times) ≡ keep (is_recent (now + d)) times
keep_later now d [] = refl
keep_later now d (t ∷ times) = grind (
  arith,
  keep_later now d times,
  recent_before now d t,
  Bool-cases (is_recent now t),
  Bool-cases (is_recent (now + d) t),
)

keep_again :
    (now : ℕ) (times : List ℕ)
    → keep (is_recent now) (keep (is_recent now) times) ≡ keep (is_recent now) times
keep_again now times =
    let same : now + 0 ≡ now = omega arith in
    subst (λ n. keep (is_recent n) (keep (is_recent now) times) ≡ keep (is_recent n) times) same
      (keep_later now 0 times)

keep-append : (p : ℕ → Bool) (xs ys : List ℕ) → keep p (xs ++ ys) ≡ keep p xs ++ keep p ys
keep-append p [] ys = refl
keep-append p (x ∷ xs) ys = ground (arith, keep-append p xs ys)

-- The limiter has kept, for every key, what is recent of the memory.
abbrev Agrees : ℕ → List ℕ → List ℕ → Type 0
Agrees now kept allowed = keep (is_recent now) kept ≡ keep (is_recent now) allowed

Agrees-later :
    (now d : ℕ) (kept allowed : List ℕ) → Agrees now kept allowed → Agrees (now + d) kept allowed
Agrees-later now d kept allowed h =
    sym (keep_later now d kept) ∙ ap (keep (is_recent (now + d))) h ∙ keep_later now d allowed

recent_now : (now : ℕ) → is_recent now now ≡ true
unfolding is_recent
recent_now now = ground arith

admit-decides :
    (now : ℕ) (kept allowed : List ℕ)
    → Agrees now kept allowed
    → admit now kept
      ≡ (decide now allowed, remember (decide now allowed) now (keep (is_recent now) kept))
unfolding admit
admit-decides now kept allowed h = ground (arith, ap length h)

Agrees-remember :
    (now : ℕ) (b : Bool) (kept allowed : List ℕ)
    → Agrees now kept allowed
    → Agrees now (remember b now (keep (is_recent now) kept)) (remember b now allowed)
Agrees-remember now true kept allowed h =
    rw
      (
        keep-append (is_recent now) (keep (is_recent now) kept) (now ∷ []),
        keep-append (is_recent now) allowed (now ∷ []),
        keep_again now kept,
      )
      (ap (λ ts. ts ++ keep (is_recent now) (now ∷ [])) h)
Agrees-remember now false kept allowed h = keep_again now kept ∙ h

attempts_at-set :
    (j k : String) (times : List ℕ) (attempts : Attempts)
    → attempts_at j (set_attempts k times attempts)
      ≡ (if k == j then times else attempts_at j attempts)
unfolding attempts_at set_attempts
attempts_at-set j k times attempts =
    ground (
      arith,
      find-upsert entry_key j k (λ _. record { key = k; times = times }) attempts (λ _. refl),
    )

attempts_at-succeeded :
    (j k : String) (attempts : Attempts)
    → attempts_at j (login_succeeded k attempts) ≡ (if k == j then [] else attempts_at j attempts)
unfolding attempts_at login_succeeded
attempts_at-succeeded j k attempts = ground (arith, find-remove entry_key j k attempts)

abbrev Remembers : ℕ → Attempts → Memory → Type 0
Remembers now attempts memory = (k : String) → Agrees now (attempts_at k attempts) (memory k)

Agrees-at :
    (now : ℕ) (same : Bool) (a b c d : List ℕ)
    → Agrees now a b
    → Agrees now c d
    → Agrees now (if same then a else c) (if same then b else d)
Agrees-at now true a b c d h k = h
Agrees-at now false a b c d h k = k

Remembers-set :
    (now : ℕ) (key : String) (kept allowed : List ℕ) (attempts : Attempts) (memory : Memory)
    → Agrees now kept allowed
    → Remembers now attempts memory
    → Remembers now (set_attempts key kept attempts) (at_key key allowed memory)
Remembers-set now key kept allowed attempts memory h r j =
    rw (attempts_at-set j key kept attempts)
      (Agrees-at now (key == j) kept allowed (attempts_at j attempts) (memory j) h (r j))

Remembers-succeeded :
    (now : ℕ) (key : String) (attempts : Attempts) (memory : Memory)
    → Remembers now attempts memory
    → Remembers now (login_succeeded key attempts) (at_key key [] memory)
Remembers-succeeded now key attempts memory r j =
    rw (attempts_at-succeeded j key attempts)
      (Agrees-at now (key == j) [] [] (attempts_at j attempts) (memory j) refl (r j))

decisions_agree :
    (now : ℕ) (attempts : Attempts) (memory : Memory) (events : List (ℕ × Event))
    → Remembers now attempts memory
    → decisions now attempts events ≡ decisions_of now memory events
unfolding allow
decisions_agree now attempts memory [] r = refl
decisions_agree now attempts memory ((d, attempted key) ∷ events) r =
    let time = now + d in
    let kept = attempts_at key attempts in
    let allowed = memory key in
    let same : Agrees time kept allowed = Agrees-later now d kept allowed (r key) in
    let b = decide time allowed in
    let next =
      decisions_agree time
        (set_attempts key (remember b time (keep (is_recent time) kept)) attempts)
        (at_key key (remember b time allowed) memory) events
        (Remembers-set time key _ _ attempts memory (Agrees-remember time b kept allowed same)
          (λ k. Agrees-later now d _ _ (r k))) in
    rw (admit-decides time kept allowed same) (ap (λ bs. b ∷ bs) next)
decisions_agree now attempts memory ((d, succeeded key) ∷ events) r =
    decisions_agree (now + d) _ _ events
      (Remembers-succeeded (now + d) key attempts memory (λ k. Agrees-later now d _ _ (r k)))

-- On every history of attempts and successes under a clock that moves on, the limiter decides as if
-- it remembered every login that it allowed since the last success under the key: an attempt is allowed if fewer than ten of those lie
-- in the ten minutes before it.
pub limiter_refines_memory :
    (now : ℕ) (events : List (ℕ × Event))
    → decisions now [] events ≡ decisions_of now (λ _. []) events
unfolding attempts_at find
limiter_refines_memory now events = decisions_agree now [] (λ _. []) events (λ k. refl)
