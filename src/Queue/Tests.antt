-- ===== src/Queue/Tests.antt =====
-- A list of three elements, and the theorems on the LIST_* macros at it.
use fos_fcis_operating_syste.Prelude.{◌≡◌, refl, [], ◌∷◌, arith, ok, Returns}
use fos_fcis_operating_syste.Queue.Defs.{Queue, write, walk, elements, remove, concat}
use fos_fcis_operating_syste.Queue.Chain.{Chain, nil, cons, IsQueue, walk-IsQueue}
use fos_fcis_operating_syste.Queue.Remove.{remove-IsQueue}
use fos_fcis_operating_syste.Queue.Concat.{concat-Chain}

abbrev three : Queue
unfolding write
three = record {
  first = 10;
  last = 30;
  size = 3;
  next = write (write (write (λ _. 0) 10 20) 20 30) 40 50;
  prev = write (write (write (λ _. 0) 20 10) 30 20) 50 40;
}

-- The head of a list of two more elements, which keeps its links beside those of the first.
abbrev two : Queue
two = record three { first = 40; last = 50; size = 2 }

three-IsQueue : IsQueue three (10 ∷ 20 ∷ 30 ∷ [])
unfolding write
three-IsQueue = record {
  chain =
      cons {x = 10} refl (omega arith) refl (omega arith, (omega arith, tt))
        (cons {x = 20} refl (omega arith) refl (omega arith, tt)
          (cons {x = 30} refl (omega arith) refl tt (nil refl refl)));
  count = refl;
  fits = omega arith;
}

walk-IsQueue_example :
    (walk 100 three.next three.first ≡ ok (10 ∷ 20 ∷ 30 ∷ []))
    × (elements three ≡ 10 ∷ 20 ∷ 30 ∷ [])
walk-IsQueue_example = walk-IsQueue 100 three-IsQueue (omega arith)

remove-IsQueue_example : Returns (λ q'. IsQueue q' (10 ∷ 30 ∷ [])) (remove three 20)
remove-IsQueue_example = remove-IsQueue (10 ∷ []) 20 (30 ∷ []) three-IsQueue

two-Chain : Chain three.next three.prev 0 0 two.first (40 ∷ 50 ∷ []) two.last
unfolding write
two-Chain =
    cons {x = 40} refl (omega arith) refl (omega arith, tt)
      (cons {x = 50} refl (omega arith) refl tt (nil refl refl))

concat-Chain_example :
    (joined : Queue) × (emptied : Queue) × (concat three two ≡ (joined, emptied))
    × Chain joined.next joined.prev 0 0 joined.first (10 ∷ 20 ∷ 30 ∷ 40 ∷ 50 ∷ []) joined.last
    × (joined.size ≡ 3)
    × IsQueue emptied []
concat-Chain_example = concat-Chain three two three-IsQueue two-Chain (
  (omega arith, (omega arith, tt)),
  ((omega arith, (omega arith, tt)), ((omega arith, (omega arith, tt)), tt)),
)
