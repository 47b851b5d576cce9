-- ===== src/Tests/Queues.antt =====
-- A queue of numbers.
use xiaoya_qwen.Prelude.{ℕ, List, [], ◌∷◌, ◌++◌, ◌≡◌}
use xiaoya_qwen.Queues.{push, consume, consume_loop, MqSteps, publishes, consumes, rests, steps}
use xiaoya_qwen.Queues.Order.{MqSteps-order}

abbrev one : List ℕ
one = 1 ∷ []

abbrev two : List ℕ
two = 2 ∷ []

abbrev both : List ℕ
both = 1 ∷ 2 ∷ []

abbrev three : List ℕ
three = 1 ∷ 5 ∷ 2 ∷ []

published : MqSteps one two [] both
unfolding push
published = steps one one both [] [] two [] (rests one) (publishes one 2)

given : MqSteps one two both []
unfolding consume consume_loop
given = steps one both [] two [] [] both published (consumes both)

MqSteps-order_example : one ++ two ≡ both ++ []
MqSteps-order_example = MqSteps-order one two both [] given
