-- ===== src/Deque.antt =====
-- The deque of src/collections.c: six functions that are declared, and that only report a failure.
use coop_tasks.Base.{ℕ, List, Option}
use coop_tasks.Mempool.{Status, failure}

-- `struct deque` has no field.
abbrev Deque : Type 0
Deque = Unit {0}

unfoldable deque_create : Option Deque → (val_bytes capacity : ℕ) → Status
deque_create q val_bytes capacity = failure

unfoldable deque_destroy : Option Deque → Status
deque_destroy q = failure

unfoldable deque_push : Option Deque → Option (List ℕ) → Status
deque_push q val = failure

unfoldable deque_pop : Option Deque → Option (List ℕ) → Status
deque_pop q val = failure

unfoldable deque_shift : Option Deque → Option (List ℕ) → Status
deque_shift q val = failure

unfoldable deque_unshift : Option Deque → Option (List ℕ) → Status
deque_unshift q val = failure
