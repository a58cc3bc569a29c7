-- ===== src/ListTests.antt =====
-- The theorems on lists, at concrete lists.
use coop_tasks.Base.{
  suc, zero, ◌/◌, ◌%◌, ◌+◌, ◌-◌, ◌^◌, ◌++◌, ◌==◌, if◌then◌else◌, ℕ, ◌≡◌, refl, ap, ◌∙◌, Option,
  none, some, List, [], ◌∷◌, arith, length, take,
}
use coop_tasks.Heap.{World, ok}
use coop_tasks.Heap.Returns.{Returns, outcome}
use coop_tasks.Mempool.{
  Status, InSpace, memory_pool_maker, fragment_at, internal_mempool_aligned_data_bytes,
}
use coop_tasks.LockFree.{
  LockFreeList, items, find, put, list_create, list_insert, list_delete, list_search, list_update,
  list_dump, search_from, key_min, IsUserKey, IsList-Ends, ListCreated, create-IsList, node_size,
  InsertPost, insert-Inserted, remove, set, map_call, DeletePost, delete-Deleted, Looked,
  search-Looked, UpdatePost, update-Updated, list_dump-keys, heading, line_of, search_from-ok, upto,
  from, at_end, first, MapCall, insert, delete, search_for, update, did, exists, no_room, missing,
  value, map_call, map_run, list_run, MapAgrees, list_run-Agrees, represents_map, length-items,
  no_more,
}

abbrev quiet_world : World
quiet_world = record { heap = λ _. none; blocks = λ _. none; errno = 0; spurious = [] }

abbrev no_list : LockFreeList
no_list = record { pool = memory_pool_maker 0 0 0; val_bytes = 0; head = 0; tail = 0 }

-- Room for one value of two bytes, and for the two ends.
list_space : InSpace 4096 34 3
unfolding internal_mempool_aligned_data_bytes
list_space = record { ne_null = omega arith; small = omega arith; fits = omega arith }

create-IsList_example :
    Returns (ListCreated quiet_world 4096 2 1) (list_create 4096 (some no_list) 2 1 quiet_world)
create-IsList_example =
    create-IsList {n = 2} {capacity = 1} list_space (omega arith) (omega arith) (omega arith)
      no_list quiet_world

created : (a : Status × Option LockFreeList) × (w : World) × ListCreated quiet_world 4096 2 1 a w
created = outcome (
    create-IsList {n = 2} {capacity = 1} list_space (omega arith) (omega arith) (omega arith)
      no_list quiet_world)

user_key : IsUserKey 5
user_key = record { above_min = omega arith; below_max = omega arith }

insert-Inserted_example :
    Returns
      (InsertPost created.1 created.2.0 []
        (fragment_at 4096 (node_size 2) 2)
        (fragment_at 4096 (node_size 2) 3)
        []
        (fragment_at 4096 (node_size 2) 1 ∷ 4096 ∷ [])
        5
        (7 ∷ 8 ∷ [])
        none)
      (list_insert 2 created.2.0 5 (some (7 ∷ 8 ∷ [])) created.1)
unfolding find
insert-Inserted_example =
    insert-Inserted 2 5 (7 ∷ 8 ∷ []) created.2.3 user_key (omega (arith, created.2.4))
      (omega (arith, created.2.6))

-- The list with one entry.
filled :
    (a : Status × LockFreeList) × (w : World) × InsertPost created.1 created.2.0 []
      (fragment_at 4096 (node_size 2) 2)
      (fragment_at 4096 (node_size 2) 3)
      []
      (fragment_at 4096 (node_size 2) 1 ∷ 4096 ∷ [])
      5
      (7 ∷ 8 ∷ [])
      none
      a
      w
unfolding find
filled = outcome (
    insert-Inserted 2 5 (7 ∷ 8 ∷ []) created.2.3 user_key (omega (arith, created.2.4))
      (omega (arith, created.2.6)))

filled_size : filled.0.1.val_bytes ≡ 2
filled_size = filled.2.4 ∙ created.2.4

other_key : IsUserKey 6
other_key = record { above_min = omega arith; below_max = omega arith }

filled_items : items filled.2.0 ≡ (5, take created.2.0.val_bytes (7 ∷ 8 ∷ [])) ∷ []
unfolding put
filled_items = filled.2.3

missing_key : find 6 (items filled.2.0) ≡ none
unfolding find
missing_key = rw filled_items refl

length_filled : length filled.2.0 ≡ 1
length_filled = omega (arith, length-items filled.2.0, ap length filled_items)

filled_quiet : filled.1.spurious ≡ []
filled_quiet = no_more filled.1.spurious (omega (arith, filled.2.9, created.2.6))

delete-Deleted_example :
    Returns
      (DeletePost filled.1 0 filled.0.1 filled.2.0
        (fragment_at 4096 (node_size 2) 3)
        []
        (fragment_at 4096 (node_size 2) 2 ∷ fragment_at 4096 (node_size 2) 1 ∷ 4096 ∷ [])
        5
        none
        (find 5 (items filled.2.0)))
      (list_delete 2 0 filled.0.1 5 none filled.1)
delete-Deleted_example =
    delete-Deleted 1 0 5 none filled.2.2 user_key tt (omega arith) filled_quiet
      (omega (arith, length_filled))

search-Looked_example :
    Returns
      (Looked filled.1 filled.0.1.val_bytes 3 (some (0 ∷ 0 ∷ [])) (find 5 (items filled.2.0)))
      (list_search 2 3 filled.0.1 5 (some (0 ∷ 0 ∷ [])) filled.1)
search-Looked_example =
    search-Looked 2 3 5 (some (0 ∷ 0 ∷ [])) filled.2.2 user_key (omega (arith, filled_size))
      (omega arith) (omega (arith, length_filled, ap length filled_quiet))

update-Updated_example :
    Returns
      (UpdatePost filled.1 filled.0.1 filled.2.0
        (fragment_at 4096 (node_size 2) 3)
        []
        (fragment_at 4096 (node_size 2) 2 ∷ fragment_at 4096 (node_size 2) 1 ∷ 4096 ∷ [])
        5
        (9 ∷ 9 ∷ [])
        (find 5 (items filled.2.0)))
      (list_update 2 0 filled.0.1 5 (some (9 ∷ 9 ∷ [])) filled.1)
update-Updated_example =
    update-Updated 2 5 (9 ∷ 9 ∷ []) filled.2.2 user_key (omega (arith, filled_size))
      (omega (arith, length_filled, ap length filled_quiet))

-- The decimal digits of a number below 10 ^ 20.
unfoldable digits : ℕ → ℕ → List ℕ → List ℕ
digits zero n text = text
digits (suc k) n text =
    let more = digits k (n / 10) ((n % 10 + 48) ∷ text) in if n == 0 then text else more

abbrev decimal : ℕ → List ℕ
decimal n = if n == 0 then 48 ∷ [] else digits 20 n []

list_dump-keys_example :
    list_dump decimal 2 filled.0.1 filled.1
    ≡ ok (heading ++ (line_of decimal (items filled.2.0) ++ 10 ∷ [])) filled.1
list_dump-keys_example = list_dump-keys decimal 2 filled.2.2 (omega (arith, length_filled))

-- The keys -1 and 7: 18446744073709551615 stands before 7.
unsigned_line :
    line_of decimal ((2 ^ 63 - 1, []) ∷ (2 ^ 63 + 7, []) ∷ [])
    ≡ 32 ∷ 91 ∷ 49 ∷ 56 ∷ 52 ∷ 52 ∷ 54 ∷ 55 ∷ 52 ∷ 52 ∷ 48 ∷ 55 ∷ 51 ∷ 55 ∷ 48 ∷ 57 ∷ 53 ∷ 53 ∷ 49
      ∷ 54 ∷ 49 ∷ 53 ∷ 93 ∷ 32 ∷ 91 ∷ 55 ∷ 93 ∷ []
unfolding digits
unsigned_line = refl

search_from-ok_example :
    search_from 2 5 filled.0.1.head filled.1
    ≡ ok
        (at_end filled.0.1.head (upto 5 filled.2.0), first (from 5 filled.2.0) filled.0.1.tail)
        filled.1
search_from-ok_example =
    search_from-ok filled.1 filled.0.1.val_bytes filled.0.1.head key_min filled.2.0 filled.0.1.tail
      5 2 filled.2.2.span (IsList-Ends filled.2.2 5 user_key.below_max)
      (omega (arith, length_filled))

abbrev map_calls : List MapCall
map_calls =
    insert 5 (1 ∷ 2 ∷ [])
    ∷ insert 5 (3 ∷ 4 ∷ [])
    ∷ insert 6 (3 ∷ 4 ∷ [])
    ∷ update 5 (9 ∷ 9 ∷ [])
    ∷ search_for 5 (0 ∷ 0 ∷ [])
    ∷ delete 5 (0 ∷ 0 ∷ [])
    ∷ delete 5 (0 ∷ 0 ∷ [])
    ∷ []

list_run-Agrees_example :
    Returns
      (MapAgrees 2 1 (map_run 2 1 map_calls []))
      (list_run 2 2 map_calls (created.2.0, 0) created.1)
list_run-Agrees_example =
    list_run-Agrees map_calls 1
      (represents_map {capacity = 1} created.2.3 refl created.2.4 created.2.5
        (no_more created.1.spurious (omega (arith, created.2.6))))
      (omega arith)
      (
        user_key,
        omega arith,
        (
          user_key,
          omega arith,
          (
            other_key,
            omega arith,
            (
              user_key,
              omega arith,
              (user_key, omega arith, (user_key, omega arith, (user_key, omega arith, tt))),
            ),
          ),
        ),
      )

map_run_test :
    map_run 2 1 map_calls []
    ≡ (did ∷ exists ∷ no_room ∷ did ∷ value (9 ∷ 9 ∷ []) ∷ value (9 ∷ 9 ∷ []) ∷ missing ∷ [], [])
unfolding map_run map_call find put remove set
map_run_test = refl
