-- ===== src/Bustd/RingBuffer/Tests.antt =====
-- The ring buffer with room for four bytes.
use bunos.Prelude.{◌≡◌, refl, List, [], ◌∷◌, ok, arith}
use bunos.Bustd.RingBuffer.{Ring}
use bunos.Bustd.RingBuffer.Contents.{IsValid, contents}
use bunos.Bustd.RingBuffer.Queue
use bunos.Bustd.RingBuffer.Queue.{Op, Reply, count, bytes, byte, done}
use bunos.Bustd.RingBuffer.Refine.{calls, calls_refine}

-- 7, 8, 9, with the last byte round the end.
abbrev wrapped : Ring
wrapped = record { start = 2; size = 3; buf = 9 ∷ 0 ∷ 7 ∷ 8 ∷ [] }

wrapped-IsValid : IsValid 4 wrapped
wrapped-IsValid = omega arith

contents-wrapped : contents 4 wrapped ≡ 7 ∷ 8 ∷ 9 ∷ []
unfolding contents
contents-wrapped = refl

abbrev script : List Op
script =
    Op.push 1
    ∷ Op.push 2
    ∷ Op.pop
    ∷ Op.head
    ∷ Op.write (3 ∷ 4 ∷ [])
    ∷ Op.take_upto 9
    ∷ Op.clear
    ∷ []

calls_refine_example : calls 4 wrapped script ≡ Queue.run 4 (7 ∷ 8 ∷ 9 ∷ []) script
unfolding contents
calls_refine_example = calls_refine 4 script wrapped-IsValid

queue_run :
    Queue.run 4 (7 ∷ 8 ∷ 9 ∷ []) script
    ≡ ok (done ∷ done ∷ byte 7 ∷ byte 8 ∷ count 1 ∷ bytes (8 ∷ 9 ∷ 1 ∷ 3 ∷ []) ∷ done ∷ [])
unfolding Queue.run Queue.step
queue_run = refl
