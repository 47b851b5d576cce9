-- ===== src/Queues.antt =====
-- pkg/generic/queue.go and pkg/mq/mq.go. A queue is the list of its elements, the oldest first. The mutex of
-- the message queue makes each of its operations one step.
pub mod Order
use xiaoya_qwen.Prelude.{
  ℕ, suc, List, [], ◌∷◌, ◌++◌, Bool, true, false, not, Option, none, some, ltb, leb, if◌then◌else◌,
  length, take, drop,
}

module _ {T : Type 0} where
  abbrev pub new_queue : List T
  new_queue = []

  unfoldable pub push : List T → T → List T
  push q v = q ++ v ∷ []

  -- `none`: the index is out of range
  unfoldable pub pop : List T → Option (T × List T)
  pop [] = none
  pop (v ∷ q) = some (v, q)

  unfoldable pub queue_len : List T → ℕ
  queue_len q = length q

  unfoldable pub is_empty : List T → Bool
  is_empty [] = true
  is_empty (v ∷ q) = false

  unfoldable pub peek : List T → Option T
  peek [] = none
  peek (v ∷ q) = some v

  unfoldable pub pop_n : List T → ℕ → Option (List T × List T)
  pop_n q n = if leb n (length q) then some (take n q, drop n q) else none

  abbrev pub pop_all : List T → List T × List T
  pop_all q = (q, [])

  -- the loop: the index of the first element that does not pass
  unfoldable pub index_while : (T → Bool) → List T → ℕ
  index_while f [] = 0
  index_while f (v ∷ q) = let rest = index_while f q in if f v then suc rest else 0

  unfoldable pub pop_while : List T → (T → Bool) → List T × List T
  pop_while q f = let i = index_while f q in (take i q, drop i q)

  unfoldable pub pop_until : List T → (T → Bool) → List T × List T
  pop_until q f = let i = index_while (λ v. not (f v)) q in (take i q, drop i q)

  unfoldable pub peek_n : List T → ℕ → Option (List T)
  peek_n q n = if leb n (length q) then some (take n q) else none

  abbrev pub clear : List T → List T
  clear q = []

  -- The loop of Consume: what the consumer is given, in order, and the queue that is left.
  unfoldable pub consume_loop : List T → List T → List T × List T
  consume_loop given [] = (given, [])
  consume_loop given (v ∷ q) = consume_loop (given ++ v ∷ []) q

  unfoldable pub consume : List T → List T × List T
  consume q = consume_loop [] q

  -- An operation of the message queue, with what is published and what leaves the queue.
  pub data MqStep : List T → List T → List T → List T → Type 0 where
    publishes : (q : List T) (m : T) → MqStep q (m ∷ []) [] (push q m)
    consumes : (q : List T) → MqStep q [] (consume q).0 (consume q).1
    clears : (q : List T) → MqStep q [] q (clear q)
    consumes_all : (q : List T) → MqStep q [] (pop_all q).0 (pop_all q).1

  -- Steps with the messages that were published and those that were given away or dropped.
  pub data MqSteps : List T → List T → List T → List T → Type 0 where
    rests : (q : List T) → MqSteps q [] [] q
    steps :
        (q r s ins outs ins' outs' : List T)
        → MqSteps q ins outs r
        → MqStep r ins' outs' s
        → MqSteps q (ins ++ ins') (outs ++ outs') s
