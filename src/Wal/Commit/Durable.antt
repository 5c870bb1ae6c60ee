-- ===== src/Wal/Commit/Durable.antt =====
-- The group commit: Ok from `wait` means that the record is on the disk, and no waiter is forgotten.
use hamane_db.Base.{
  ℕ, ◌+◌, ◌≤◌, ◌≡◌, ◌∙◌, sym, ap, subst, refl, Bool, true, false, not, List, [], ◌∷◌, ◌++◌, map,
  leb, All, All-append, if◌then◌else◌, ◌≢◌, arith,
}
use hamane_db.Wal.Commit.{
  BatchState, count_appended, Turn, finish, lead, sleep, wait_turn, after_fsync, Phase, ready,
  asleep, returned, failed, leading, Waiter, CommitState, commit_start, turn_phase, turn_batch,
  woken, answer_phase, CommitStep, append_step, token_step, turn_step, flush_step, fail_step,
  wake_step, IsReachable, start, then_step,
}

-- What a phase says of the thread's record, with `b` the state of the batch and `n` records on the
-- disk.
abbrev pub IsAt : BatchState → ℕ → ℕ → Phase → Type 0
IsAt b n seq ready = Unit
IsAt b n seq asleep = b.syncing ≡ true
IsAt b n seq returned = seq ≤ n
IsAt b n seq failed = Unit
IsAt b n seq (leading target) = (b.syncing ≡ true) × (seq ≤ target) × (target ≤ b.appended)

pub record IsWaiter (b : BatchState) (n : ℕ) (w : Waiter) : Type 0 where
  pub asked : w.seq ≤ b.appended
  pub at : IsAt b n w.seq w.phase

-- How many threads are in `sync_data`.
abbrev pub is_leading : Phase → ℕ
is_leading ready = 0
is_leading asleep = 0
is_leading returned = 0
is_leading failed = 0
is_leading (leading target) = 1

unfoldable pub leaders : List Waiter → ℕ
leaders [] = 0
leaders (w ∷ ws) = is_leading w.phase + leaders ws

abbrev pub one_if : Bool → ℕ
one_if true = 1
one_if false = 0

pub record IsSound (s : CommitState) : Type 0 where
  pub kept : s.batch_state.synced ≤ s.durable
  pub counted : s.batch_state.synced ≤ s.batch_state.appended
  pub waiters : All (IsWaiter s.batch_state s.durable) s.waiters
  pub one : leaders s.waiters ≡ one_if s.batch_state.syncing

leaders-append : (xs ys : List Waiter) → leaders (xs ++ ys) ≡ leaders xs + leaders ys
unfolding leaders
leaders-append [] ys = omega arith
leaders-append (w ∷ xs) ys = omega (arith, leaders-append xs ys)

is_leading-woken : (w : Waiter) → is_leading (woken w).phase ≡ is_leading w.phase
unfolding woken
is_leading-woken w = ground arith

leaders-woken : (ws : List Waiter) → leaders (map woken ws) ≡ leaders ws
unfolding leaders
leaders-woken [] = refl
leaders-woken (w ∷ ws) = omega (arith, leaders-woken ws, is_leading-woken w)

module _ {A : Type 0} (P : A → Type 0) where
  All-left : (xs ys : List A) → All P (xs ++ ys) → All P xs
  All-left [] ys h = tt
  All-left (x ∷ xs) ys h = (h.0, All-left xs ys h.1)

  All-right : (xs ys : List A) → All P (xs ++ ys) → All P ys
  All-right [] ys h = h
  All-right (x ∷ xs) ys h = All-right xs ys h.1

-- The state changes so that each thread still stands where it says, and one thread moves.
module _ (b c : BatchState) (n m : ℕ) where
  abbrev Carries : Type 0
  Carries = (w : Waiter) → IsWaiter b n w → IsWaiter c m w

  carry-All : (ws : List Waiter) → Carries → All (IsWaiter b n) ws → All (IsWaiter c m) ws
  carry-All [] f h = tt
  carry-All (w ∷ ws) f h = (f w h.0, carry-All ws f h.1)

  replaced :
      (before after : List Waiter) (w v : Waiter)
      → Carries
      → All (IsWaiter b n) (before ++ (w ∷ after))
      → (IsWaiter b n w → IsWaiter c m v)
      → All (IsWaiter c m) (before ++ (v ∷ after))
  replaced before after w v f h one =
      let rest = All-right (IsWaiter b n) before (w ∷ after) h in
      All-append (IsWaiter c m) before (v ∷ after)
        (carry-All before f (All-left (IsWaiter b n) before (w ∷ after) h))
        (one rest.0, carry-All after f rest.1)

  -- After a flush: no other thread is in `sync_data`, and none sleeps.
  woken-IsWaiter :
      (w : Waiter)
      → n ≤ m
      → c.appended ≡ b.appended
      → is_leading w.phase ≡ 0
      → IsWaiter b n w
      → IsWaiter c m (woken w)
  unfolding woken
  woken-IsWaiter w le same none_leads h = go w.seq w.phase none_leads h.asked h.at
    where
      go :
          (seq : ℕ) (phase : Phase)
          → is_leading phase ≡ 0
          → seq ≤ b.appended
          → IsAt b n seq phase
          → IsWaiter c m (woken (record { seq = seq; phase = phase }))
      go seq ready l a i = record { asked = omega (arith, a, same); at = tt }
      go seq asleep l a i = record { asked = omega (arith, a, same); at = tt }
      go seq returned l a i = record { asked = omega (arith, a, same); at = omega (arith, i, le) }
      go seq failed l a i = record { asked = omega (arith, a, same); at = tt }
      go seq (leading target) l a i = absurd (omega (arith, l))

  woken-All :
      (ws : List Waiter)
      → n ≤ m
      → c.appended ≡ b.appended
      → leaders ws ≡ 0
      → All (IsWaiter b n) ws
      → All (IsWaiter c m) (map woken ws)
  unfolding leaders
  woken-All [] le same none_leads h = tt
  woken-All (w ∷ ws) le same none_leads h = (
    woken-IsWaiter w le same (omega (arith, none_leads)) h.0,
    woken-All ws le same (omega (arith, none_leads)) h.1,
  )

leaders-at :
    (before after : List Waiter) (w : Waiter)
    → leaders (before ++ (w ∷ after)) ≡ leaders before + (is_leading w.phase + leaders after)
unfolding leaders
leaders-at before after w = leaders-append before (w ∷ after)

start-IsSound : IsSound commit_start
unfolding leaders
start-IsSound = record { kept = omega arith; counted = omega arith; waiters = tt; one = refl }

appended-IsWaiter : (b : BatchState) (n : ℕ) → Carries b (count_appended b) n n
appended-IsWaiter b n w h = record { asked = omega (arith, h.asked); at = go w.phase h.at }
  where
    go : (phase : Phase) → IsAt b n w.seq phase → IsAt (count_appended b) n w.seq phase
    go ready i = i
    go asleep i = i
    go returned i = i
    go failed i = i
    go (leading target) i = (i.0, i.1, omega (arith, i.2))

-- What is known at each turn.
abbrev IsTurn : BatchState → ℕ → Turn → Type 0
IsTurn b seq finish = seq ≤ b.synced
IsTurn b seq (lead target) = (b.syncing ≡ false) × (target ≡ b.appended)
IsTurn b seq sleep = b.syncing ≡ true

wait_turn-IsTurn : (seq : ℕ) (b : BatchState) → IsTurn b seq (wait_turn seq b)
unfolding wait_turn
wait_turn-IsTurn seq b =
    if_cases (IsTurn b seq) (leb seq b.synced) (λ e. ground (arith, e))
      (λ e.
        if_cases (IsTurn b seq) (not b.syncing) (λ f. (ground (arith, f), refl))
          (λ f. ground (arith, f)))
  where
    if_cases :
        (P : Turn → Type 0) (t : Bool) {x y : Turn}
        → (t ≡ true → P x)
        → (t ≡ false → P y)
        → P (if t then x else y)
    if_cases P true f g = f refl
    if_cases P false f g = g refl

syncing-IsWaiter :
    (b : BatchState) (n : ℕ) → b.syncing ≡ false → Carries b (record b { syncing = true }) n n
syncing-IsWaiter b n free w h = record { asked = h.asked; at = go w.phase h.at }
  where
    go : (phase : Phase) → IsAt b n w.seq phase → IsAt (record b { syncing = true }) n w.seq phase
    go ready i = i
    go asleep i = refl
    go returned i = i
    go failed i = i
    go (leading target) i = (refl, i.1, i.2)

-- A turn: the batch changes only where the thread becomes the leader, and there was none.
turn-IsSound :
    (b : BatchState) (n seq : ℕ) (before after : List Waiter) (t : Turn)
    → IsTurn b seq t
    → IsSound (record {
      batch_state = b;
      durable = n;
      waiters = before ++ (record { seq = seq; phase = ready } ∷ after);
    })
    → IsSound (record {
      batch_state = turn_batch t b;
      durable = n;
      waiters = before ++ (record { seq = seq; phase = turn_phase t } ∷ after);
    })
unfolding turn_batch turn_phase
turn-IsSound b n seq before after finish i h = record {
  kept = h.kept;
  counted = h.counted;
  waiters =
      replaced b b n n before after _ _ (λ w x. x) h.waiters
        (λ x. record { asked = x.asked; at = omega (arith, i, h.kept) });
  one = leaders-at before after _ ∙ sym (leaders-at before after _) ∙ h.one;
}
turn-IsSound b n seq before after (lead target) i h = record {
  kept = h.kept;
  counted = h.counted;
  waiters =
      replaced b (record b { syncing = true }) n n before after _ _ (syncing-IsWaiter b n i.0)
        h.waiters
        (λ x. record {
          asked = x.asked;
          at = (refl, omega (arith, x.asked, i.1), omega (arith, i.1));
        });
  one =
      let was : leaders before + leaders after ≡ 0 = omega (
        arith,
        h.one,
        leaders-at before after (record { seq = seq; phase = ready }),
        ap one_if i.0,
      ) in
      leaders-at before after (record { seq = seq; phase = leading target }) ∙ omega (arith, was);
}
turn-IsSound b n seq before after sleep i h = record {
  kept = h.kept;
  counted = h.counted;
  waiters =
      replaced b b n n before after _ _ (λ w x. x) h.waiters
        (λ x. record { asked = x.asked; at = i });
  one = leaders-at before after _ ∙ sym (leaders-at before after _) ∙ h.one;
}

-- The end of a flush that reached `target`, with all that slept awake.
flushed-IsSound :
    (b c : BatchState) (n m seq target : ℕ) (before after : List Waiter) (answer : Bool)
    → n ≤ m
    → c.appended ≡ b.appended
    → c.syncing ≡ false
    → c.synced ≤ m
    → c.synced ≤ c.appended
    → IsSound (record {
      batch_state = b;
      durable = n;
      waiters = before ++ (record { seq = seq; phase = leading target } ∷ after);
    })
    → IsSound (record {
      batch_state = c;
      durable = m;
      waiters =
          map woken before ++ (record { seq = seq; phase = answer_phase answer } ∷ map woken after);
    })
flushed-IsSound b c n m seq target before after answer le same free reached bound h =
    let rest = All-right (IsWaiter b n) before _ h.waiters in
    let busy : b.syncing ≡ true = rest.0.at.0 in
    let none_else : leaders before + leaders after ≡ 0 = omega (
      arith,
      h.one,
      leaders-at before after (record { seq = seq; phase = leading target }),
      ap one_if busy,
    ) in
    record {
      kept = reached;
      counted = bound;
      waiters =
          All-append (IsWaiter c m) (map woken before) _
            (woken-All b c n m before le same (omega (arith, none_else))
              (All-left (IsWaiter b n) before _ h.waiters))
            (
              answered answer rest.0.asked,
              woken-All b c n m after le same (omega (arith, none_else)) rest.1,
            );
      one =
          leaders-at (map woken before) (map woken after) _
          ∙ omega (
            arith,
            none_else,
            leaders-woken before,
            leaders-woken after,
            ap one_if free,
            answer_leads answer,
          );
    }
  where
    answered :
        (a : Bool) → seq ≤ b.appended → IsWaiter c m (record { seq = seq; phase = answer_phase a })
    answered true x = record { asked = omega (arith, x, same); at = tt }
    answered false x = record { asked = omega (arith, x, same); at = tt }

    answer_leads : (a : Bool) → is_leading (answer_phase a) ≡ 0
    answer_leads true = refl
    answer_leads false = refl

CommitStep-IsSound : (s t : CommitState) → CommitStep s t → IsSound s → IsSound t
unfolding leaders after_fsync
CommitStep-IsSound s t (append_step b n ws) h = record {
  kept = h.kept;
  counted = omega (arith, h.counted);
  waiters = carry-All b (count_appended b) n n ws (appended-IsWaiter b n) h.waiters;
  one = h.one;
}
CommitStep-IsSound s t (token_step b n ws) h = record {
  kept = h.kept;
  counted = h.counted;
  waiters = (record { asked = omega arith; at = tt }, h.waiters);
  one = omega (arith, h.one);
}
CommitStep-IsSound s t (turn_step b n seq before after) h =
    turn-IsSound b n seq before after (wait_turn seq b) (wait_turn-IsTurn seq b) h
CommitStep-IsSound s t (flush_step b n m seq target before after le reached) h =
    let rest = All-right (IsWaiter b n) before _ h.waiters in
    flushed-IsSound b (after_fsync true target b) n m seq target before after true le refl refl
      (omega (arith, h.kept, le, reached)) (omega (arith, h.counted, rest.0.at.2)) h
CommitStep-IsSound s t (fail_step b n seq target before after) h =
    flushed-IsSound b (after_fsync false target b) n n seq target before after false (omega arith)
      refl refl h.kept h.counted h
CommitStep-IsSound s t (wake_step b n seq before after) h = record {
  kept = h.kept;
  counted = h.counted;
  waiters =
      replaced b b n n before after _ _ (λ w x. x) h.waiters
        (λ x. record { asked = x.asked; at = tt });
  one = leaders-at before after _ ∙ sym (leaders-at before after _) ∙ h.one;
}

pub IsReachable-IsSound : (s : CommitState) → IsReachable s → IsSound s
IsReachable-IsSound s start = start-IsSound
IsReachable-IsSound t (then_step {s = s} r step) =
    CommitStep-IsSound s t step (IsReachable-IsSound s r)

-- In every state that the writer and the waiting threads can reach, a thread that has come out of
-- `wait` with Ok has its record on the disk, in any order of their steps and after any failed or
-- successful `sync_data`.
pub returned_durable :
    (s : CommitState)
    → IsReachable s
    → All (λ (w : Waiter). w.phase ≡ returned → w.seq ≤ s.durable) s.waiters
returned_durable s r = each s.waiters (IsReachable-IsSound s r).waiters
  where
    at_returned :
        (seq : ℕ) (phase : Phase)
        → IsAt s.batch_state s.durable seq phase
        → phase ≡ returned
        → seq ≤ s.durable
    at_returned seq ready i e = cc
    at_returned seq asleep i e = cc
    at_returned seq returned i e = i
    at_returned seq failed i e = cc
    at_returned seq (leading target) i e = cc

    each :
        (ws : List Waiter)
        → All (IsWaiter s.batch_state s.durable) ws
        → All (λ (w : Waiter). w.phase ≡ returned → w.seq ≤ s.durable) ws
    each [] h = tt
    each (w ∷ ws) h = (at_returned w.seq w.phase h.0.at, each ws h.1)

-- In every state that can be reached, one thread is in `sync_data` while the flag `syncing` is set,
-- and none while it is not.
pub leaders_syncing :
    (s : CommitState) → IsReachable s → leaders s.waiters ≡ one_if s.batch_state.syncing
leaders_syncing s r = (IsReachable-IsSound s r).one

abbrev HasLeader : List Waiter → Type 0
HasLeader ws =
    (before : List Waiter) × (seq : ℕ) × (target : ℕ) × (after : List Waiter) × (ws
      ≡ before ++ (record { seq = seq; phase = leading target } ∷ after))

HasLeader-cons : (w : Waiter) (ws : List Waiter) → HasLeader ws → HasLeader (w ∷ ws)
HasLeader-cons w ws (before, seq, target, after, e) =
    (w ∷ before, seq, target, after, ap (λ l. w ∷ l) e)

find_leader : (ws : List Waiter) → leaders ws ≡ 1 → HasLeader ws
unfolding leaders
find_leader [] h = absurd (omega (arith, h))
find_leader (w ∷ ws) h = go w.seq w.phase (find_leader ws) h
  where
    go :
        (seq : ℕ) (phase : Phase)
        → (leaders ws ≡ 1 → HasLeader ws)
        → is_leading phase + leaders ws ≡ 1
        → HasLeader (record { seq = seq; phase = phase } ∷ ws)
    go seq ready f e = HasLeader-cons _ ws (f (omega (arith, e)))
    go seq asleep f e = HasLeader-cons _ ws (f (omega (arith, e)))
    go seq returned f e = HasLeader-cons _ ws (f (omega (arith, e)))
    go seq failed f e = HasLeader-cons _ ws (f (omega (arith, e)))
    go seq (leading target) f e = ([], seq, target, ws, refl)

woken_awake : (ws : List Waiter) → All (λ (w : Waiter). w.phase ≢ asleep) (map woken ws)
unfolding woken
woken_awake [] = tt
woken_awake (w ∷ ws) = (go w.seq w.phase, woken_awake ws)
  where
    go : (seq : ℕ) (phase : Phase) → (woken (record { seq = seq; phase = phase })).phase ≢ asleep
    go seq ready e = cc
    go seq asleep e = cc
    go seq returned e = cc
    go seq failed e = cc
    go seq (leading target) e = cc

led_finishes :
    (seq target : ℕ) (b : BatchState)
    → seq ≤ target
    → wait_turn seq (after_fsync true target b) ≡ finish
unfolding wait_turn after_fsync
led_finishes seq target b h = ground (arith, h)

-- The state after a `sync_data` of this leader, which put `m` records on the disk, where the leader
-- stands at this phase.
abbrev pub after_flush : CommitState → List Waiter → ℕ → ℕ → List Waiter → ℕ → Phase → CommitState
after_flush s pre leader target post m phase = record {
  batch_state = after_fsync true target s.batch_state;
  durable = m;
  waiters = map woken pre ++ (record { seq = leader; phase = phase } ∷ map woken post);
}

flush_leader :
    (s : CommitState) (pre post : List Waiter) (leader target m : ℕ)
    → s.waiters ≡ pre ++ (record { seq = leader; phase = leading target } ∷ post)
    → s.durable ≤ m
    → target ≤ m
    → CommitStep s (after_flush s pre leader target post m ready)
flush_leader s pre post leader target m f h k =
    subst
      (λ ws.
        CommitStep (record { batch_state = s.batch_state; durable = s.durable; waiters = ws })
          (after_flush s pre leader target post m ready))
      (sym f) (flush_step s.batch_state s.durable m leader target pre post h k)

return_leader :
    (s : CommitState) (pre post : List Waiter) (leader target m : ℕ)
    → leader ≤ target
    → CommitStep
        (after_flush s pre leader target post m ready)
        (after_flush s pre leader target post m returned)
unfolding turn_phase turn_batch
return_leader s pre post leader target m h =
    let b = after_fsync true target s.batch_state in
    subst
      (λ turn. CommitStep (after_flush s pre leader target post m ready) (record {
        batch_state = turn_batch turn b;
        durable = m;
        waiters =
            map woken pre ++ (record { seq = leader; phase = turn_phase turn } ∷ map woken post);
      }))
      (led_finishes leader target s.batch_state h)
      (turn_step b m leader (map woken pre) (map woken post))

-- No wake-up is lost. In every state that can be reached in which a thread sleeps, some thread is
-- in `sync_data`. Where that succeeds, whatever more it put on the disk, the next state has no
-- sleeping thread, and that thread can then return from `wait` with Ok at its next turn.
pub asleep_woken :
    (s : CommitState) (before after : List Waiter) (seq : ℕ)
    → IsReachable s
    → s.waiters ≡ before ++ (record { seq = seq; phase = asleep } ∷ after)
    → (pre : List Waiter) × (leader : ℕ) × (target : ℕ) × (post : List Waiter) × (s.waiters
        ≡ pre ++ (record { seq = leader; phase = leading target } ∷ post))
      × ((m : ℕ)
          → s.durable ≤ m
          → target ≤ m
          → CommitStep s (after_flush s pre leader target post m ready)
            × All
                (λ (w : Waiter). w.phase ≢ asleep)
                (after_flush s pre leader target post m ready).waiters
            × CommitStep
                (after_flush s pre leader target post m ready)
                (after_flush s pre leader target post m returned))
asleep_woken s before after seq r e =
    let sound = IsReachable-IsSound s r in
    let at_sleeper =
      All-right (IsWaiter s.batch_state s.durable) before _
        (subst (All (IsWaiter s.batch_state s.durable)) e sound.waiters) in
    let busy : s.batch_state.syncing ≡ true = at_sleeper.0.at in
    let (pre, leader, target, post, f) = find_leader s.waiters (sound.one ∙ ap one_if busy) in
    let at_leader =
      All-right (IsWaiter s.batch_state s.durable) pre _
        (subst (All (IsWaiter s.batch_state s.durable)) f sound.waiters) in
    let led : leader ≤ target = at_leader.0.at.1 in
    (
      pre,
      leader,
      target,
      post,
      f,
      λ m h k. (
        flush_leader s pre post leader target m f h k,
        All-append (λ (w : Waiter). w.phase ≢ asleep) (map woken pre) _ (woken_awake pre)
            (cc, woken_awake post),
        return_leader s pre post leader target m led,
      ),
    )
