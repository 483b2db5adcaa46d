-- ===== src/Channel/Async.antt =====
-- `async_channel` of library/Async_channel/async_channel.cpp: two queues of packets, one from the
-- thread outside to SystemC and one back. Each operation takes a lock on its queue, so it is one
-- step here. The locks that are held to make another thread wait are the two fields `wait_get` and
-- `wait_put`, true while locked.
pub mod Laws
use sc_co_si_m.Prelude.{Bool, true, false, not, Option, none, some, List, [], ◌∷◌, if◌then◌else◌}

pub record AsyncChannel (P : Type 0) : Type 0 where
  pub queue_to_sysc : List P
  pub queue_fm_sysc : List P
  pub thread_did_push : Bool
  pub thread_did_pull : Bool
  pub sysc_did_put : Bool
  pub wait_get : Bool
  pub wait_put : Bool
  -- async_request_update() was called since the last update.
  pub update_requested : Bool

module _ {P : Type 0} where
  unfoldable pub new_channel : AsyncChannel P
  new_channel = record {
    queue_to_sysc = [];
    queue_fm_sysc = [];
    thread_did_push = false;
    thread_did_pull = false;
    sysc_did_put = false;
    wait_get = true;
    wait_put = true;
    update_requested = false;
  }

  unfoldable pub back : List P → Option P
  back [] = none
  back (p ∷ []) = some p
  back (p ∷ q ∷ ps) = back (q ∷ ps)

  unfoldable pub pop_back : List P → List P
  pop_back [] = []
  pop_back (p ∷ []) = []
  pop_back (p ∷ q ∷ ps) = p ∷ pop_back (q ∷ ps)

  unfoldable pub empty : List P → Bool
  empty [] = true
  empty (p ∷ ps) = false

  unfoldable pub push : P → AsyncChannel P → AsyncChannel P
  push p c = record c {
    queue_to_sysc = p ∷ c.queue_to_sysc;
    thread_did_push = true;
    update_requested = true;
  }

  unfoldable pub can_get : AsyncChannel P → Bool
  unfolding empty
  can_get c = not (empty c.queue_to_sysc)

  -- The packet, or `none` for false.
  unfoldable pub nb_get : AsyncChannel P → Option P × AsyncChannel P
  nb_get c = elim (back c.queue_to_sysc) [
    | none ↦ (none, c)
    | some p ↦ (some p, record c { queue_to_sysc = pop_back c.queue_to_sysc; wait_get = false })
  ]

  -- The lock is taken, or `none`: the caller waits.
  unfoldable pub wait_for_get : AsyncChannel P → Option (AsyncChannel P)
  wait_for_get c = if c.wait_get then none else some (record c { wait_get = true })

  unfoldable pub nb_put : P → AsyncChannel P → AsyncChannel P
  nb_put p c = record c {
    queue_fm_sysc = p ∷ c.queue_fm_sysc;
    sysc_did_put = true;
    wait_put = false;
  }

  unfoldable pub wait_for_put : AsyncChannel P → Option (AsyncChannel P)
  wait_for_put c = if c.wait_put then none else some (record c { wait_put = true })

  unfoldable pub can_pull : AsyncChannel P → Bool
  unfolding empty
  can_pull c = not (empty c.queue_fm_sysc)

  unfoldable pub nb_pull : AsyncChannel P → Option P × AsyncChannel P
  nb_pull c = elim (back c.queue_fm_sysc) [
    | none ↦ (none, c)
    | some p ↦ (
      some p,
      record c {
        queue_fm_sysc = pop_back c.queue_fm_sysc;
        thread_did_pull = true;
        sysc_did_put = false;
        update_requested = true;
      },
    )
  ]

  -- Called by the SystemC kernel for a request; the events that it notifies are m_sysc_pushed_event
  -- and m_sysc_pulled_event.
  unfoldable pub update : AsyncChannel P → (Bool × Bool) × AsyncChannel P
  update c = (
    (c.thread_did_push, c.thread_did_pull),
    record c { thread_did_push = false; thread_did_pull = false; update_requested = false },
  )

-- What the two sides and the kernel can do, in any order.
pub data Action (P : Type 0) : Type 0 where
  pushes : P → Action P
  gets : Action P
  waits_get : Action P
  puts : P → Action P
  waits_put : Action P
  pulls : Action P
  updates : Action P
