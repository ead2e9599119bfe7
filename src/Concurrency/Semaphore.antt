-- ===== src/Concurrency/Semaphore.antt =====
-- src/semaphore.cc and include/cornet/concurrency/semaphore.h: the counting semaphore. An awaiter is
-- known by a number, the intrusive chain from `head_` to `tail_` is the list of the awaiters on it,
-- and `ready` holds the awaiters handed to `scheduler().schedule`, oldest first.
pub mod Wake
pub mod Accounts
pub mod Departures
mod Changes
pub mod World
pub mod Progress
pub mod Calls
mod Tests
use cornet.Base.{
  ℕ, zero, suc, ◌+◌, ◌-◌, ◌%◌, ◌^◌, Bool, true, false, not, ◌&&◌, ◌||◌, if◌then◌else◌, ltb, leb,
  ◌==◌, List, [], ◌∷◌, ◌++◌, length, update,
}
use cornet.Base.Members.{remove}

-- `acquire_awaiter`; an error is its code, 0 for none.
pub record Awaiter : Type 0 where
  pub need : ℕ
  pub err : ℕ
  pub queued : Bool
  pub granted : Bool
  pub consumed : Bool

pub record Semaphore : Type 0 where
  pub count : ℕ
  pub queue : List ℕ
  pub abort_err : ℕ
  pub aborted : Bool
  pub awaiters : ℕ → Awaiter
  pub ready : List ℕ

abbrev pub add32 : ℕ → ℕ → ℕ
add32 a b = (a + b) % 2 ^ 32

-- `semaphore_t(ctx, initial)`, before any awaiter exists.
abbrev pub initial : ℕ → (ℕ → Awaiter) → Semaphore
initial n frames = record {
  count = n;
  queue = [];
  abort_err = 0;
  aborted = false;
  awaiters = frames;
  ready = [];
}

-- `acquire(n)`: a fresh awaiter in the caller's frame.
pub construct : ℕ → ℕ → Semaphore → Semaphore
construct w n s = record s {
  awaiters =
      update s.awaiters w
        (record { need = n; err = 0; queued = false; granted = false; consumed = false });
}

pub unlink : ℕ → Semaphore → Semaphore
unlink w s = record s {
  queue = remove w s.queue;
  awaiters = update s.awaiters w (record (s.awaiters w) { queued = false });
}

-- One round of the grant loop, on the head.
pub grant : ℕ → Semaphore → Semaphore
unfolding unlink
grant w s =
    let u = unlink w s in
    record u {
      count = s.count - (s.awaiters w).need;
      awaiters = update u.awaiters w (record (u.awaiters w) { granted = true });
      ready = s.ready ++ w ∷ [];
    }

-- `wake_ready`; every round takes the head off the chain, so the chain's length is fuel enough.
pub wake_loop : ℕ → List ℕ → Semaphore → Semaphore
wake_loop zero q s = s
wake_loop (suc n) [] s = s
wake_loop (suc n) (w ∷ q) s =
    let rest = wake_loop n (grant w s).queue (grant w s) in
    if leb (s.awaiters w).need s.count then rest else s

pub wake_ready : Semaphore → Semaphore
unfolding wake_loop grant
wake_ready s = wake_loop (length s.queue) s.queue s

-- `try_acquire`
pub try_acquire : ℕ → Semaphore → Bool × Semaphore
try_acquire n s =
    if s.aborted || ltb s.count n then (false, s) else (true, record s { count = s.count - n })

-- `release`
pub release : ℕ → Semaphore → Semaphore
unfolding wake_ready
release n s =
    let t = record s { count = add32 s.count n } in
    if n == 0 then s else if not s.aborted then wake_ready t else t

-- `await_ready`: whether the awaiter goes on without suspending.
pub await_ready : ℕ → Semaphore → Bool × Semaphore
await_ready w s =
    let a = s.awaiters w in
    if s.aborted
    then (
      true,
      record s { awaiters = update s.awaiters w (record a { err = s.abort_err; consumed = true }) },
    )
    else if leb a.need s.count
    then (
      true,
      record s {
        count = s.count - a.need;
        awaiters = update s.awaiters w (record a { granted = true; consumed = true });
      },
    )
    else (false, s)

-- `await_suspend`: to the tail of the chain.
pub await_suspend : ℕ → Semaphore → Semaphore
await_suspend w s = record s {
  queue = s.queue ++ w ∷ [];
  awaiters = update s.awaiters w (record (s.awaiters w) { queued = true });
}

-- `await_resume`: the error code that the caller gets, 0 for the permits.
pub await_resume : ℕ → Semaphore → ℕ × Semaphore
await_resume w s =
    let a = s.awaiters w in
    (
      if not a.granted then a.err else 0,
      record s { awaiters = update s.awaiters w (record a { consumed = true }) },
    )

-- `~acquire_awaiter`
pub destroy : ℕ → Semaphore → Semaphore
unfolding unlink wake_ready
destroy w s =
    let a = s.awaiters w in
    let t = if a.queued then unlink w s else s in
    let u = record t { count = add32 t.count a.need } in
    if a.granted && not a.consumed then (if not t.aborted then wake_ready u else u) else t

-- One round of the loop of `abort`.
pub fail_head : ℕ → ℕ → Semaphore → Semaphore
unfolding unlink
fail_head err w s =
    let u = unlink w s in
    record u {
      awaiters = update u.awaiters w (record (u.awaiters w) { err = err });
      ready = s.ready ++ w ∷ [];
    }

pub abort_loop : ℕ → ℕ → List ℕ → Semaphore → Semaphore
abort_loop err zero q s = s
abort_loop err (suc n) [] s = s
abort_loop err (suc n) (w ∷ q) s = abort_loop err n (fail_head err w s).queue (fail_head err w s)

pub abort : ℕ → Semaphore → Semaphore
unfolding abort_loop fail_head
abort err s =
    let t = record s { aborted = true; abort_err = err } in
    if s.aborted then s else abort_loop err (length s.queue) s.queue t

-- `waiting`
pub waiting : Semaphore → ℕ
waiting s = length s.queue

-- `co_await sem.acquire(n)` up to the point where the frame suspends or goes on: the awaiter's
-- construction and `await_ready`.
pub begin_acquire : ℕ → ℕ → Semaphore → Bool × Semaphore
begin_acquire w n s = await_ready w (construct w n s)

-- The rest of the expression once the frame runs again: `await_resume`, and the awaiter's end.
pub end_acquire : ℕ → Semaphore → ℕ × Semaphore
end_acquire w s = ((await_resume w s).0, destroy w (await_resume w s).1)
