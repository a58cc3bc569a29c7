-- ===== src/Threads.antt =====
-- src/threads_posix.c: the calls that pass an error number of pthreads on, and the names of threads
-- in their control blocks. The non-blocking list `tcbs` is taken as an association list.
use coop_tasks.Base.{
  ℕ, ◌+◌, ◌-◌, ◌%◌, ◌^◌, ◌<◌, ◌≤◌, ◌∉◌, ◌∙◌, ◌++◌, ltb, leb, length, take, drop, replicate, true,
  zero, suc, has, ap, ◌≡◌, ◌≢◌, refl, Option, none, some, List, [], ◌∷◌, arith, ◌==◌, if◌then◌else◌,
}
pub mod Create
pub mod Suspend
pub mod Sleep
use coop_tasks.ThreadPool.{strncpy}

abbrev pub enoent : ℕ
enoent = 2

abbrev pub ebade : ℕ
ebade = 52

abbrev pub enotsup : ℕ
enotsup = 95

-- What a call returns: an error number with -1, or zero and the rest of the result; or it writes
-- behind the end of a buffer.
pub data Result (A : Type 0) : Type 0 where
  failed : ℕ → Result A
  succeeded : A → Result A
  overflowed : Result A

-- `struct thread_control_block` as far as names and suspending go.
pub record Tcb : Type 0 where
  pub thr : ℕ
  pub name : List ℕ
  pub suspend : ℕ

abbrev pub Tcbs : Type 0
Tcbs = List (ℕ × Tcb)

unfoldable pub list_search : ℕ → Tcbs → Option Tcb
list_search thr [] = none
list_search thr ((key, tcb) ∷ rest) = if key == thr then some tcb else list_search thr rest

abbrev behind : ℕ × Tcb → Option Tcbs → Option Tcbs
behind first none = none
behind first (some rest) = some (first ∷ rest)

unfoldable pub list_update : ℕ → Tcb → Tcbs → Option Tcbs
list_update thr new [] = none
list_update thr new ((key, tcb) ∷ rest) =
    let changed = list_update thr new rest in
    if key == thr then some ((key, new) ∷ rest) else behind (key, tcb) changed

-- `err` is what the call of pthreads returned.
unfoldable pub passed_on : ℕ → Result (Unit {0})
passed_on err = if err == 0 then succeeded tt else failed err

unfoldable thrd_detach : ℕ → Result (Unit {0})
thrd_detach err = passed_on err

unfoldable thrd_suspend : ℕ → Result (Unit {0})
thrd_suspend err = passed_on err

unfoldable thrd_cancel : ℕ → Result (Unit {0})
thrd_cancel err = passed_on err

unfoldable thrd_kill : ℕ → Result (Unit {0})
thrd_kill err = passed_on err

-- An `int` and a pointer as words of 32 and of 64 bits; `(void *)(intptr_t)` keeps the sign.
abbrev pub sign_extend : ℕ → ℕ
sign_extend res = if ltb res (2 ^ 31) then res else res + (2 ^ 64 - 2 ^ 32)

-- What `pthread_exit` gets, and likewise what `internal_entry` returns when the function of the
-- thread returns `res`.
unfoldable pub thrd_exit : ℕ → ℕ
thrd_exit res = sign_extend res

-- `status` is the pointer that the thread ended with; the result is what `res` points to, if it is
-- not NULL, where `int` keeps the lower half.
unfoldable pub thrd_join : (err status : ℕ) → Option ℕ → Result (Option ℕ)
thrd_join err status none = if err == 0 then succeeded none else failed err
thrd_join err status (some old) =
    if err == 0 then succeeded (some (status % 2 ^ 32)) else failed err

-- The calls that pass one of the system on, with what that one returns: `pthread_self`,
-- `pthread_equal` and `raise`. `sched_yield` returns nothing that is used.
unfoldable thrd_current : (pthread_self : ℕ) → ℕ
thrd_current pthread_self = pthread_self

unfoldable thrd_equal : (pthread_equal : ℕ → ℕ → ℕ) (thr0 thr1 : ℕ) → ℕ
thrd_equal pthread_equal thr0 thr1 = pthread_equal thr0 thr1

unfoldable thrd_raise : (raise : ℕ → ℕ) (sig : ℕ) → ℕ
thrd_raise raise sig = raise sig

unfoldable thrd_yield : {S : Type 0} → (sched_yield : S → S) → S → S
thrd_yield sched_yield s = sched_yield s

-- The semaphore that `sem_post` gets.
unfoldable thrd_resume : ℕ → Tcbs → Result ℕ
thrd_resume thr tcbs = elim (list_search thr tcbs) [
  | none ↦ failed enoent
  | some tcb ↦ succeeded tcb.suspend
]

-- The block with the new name.
abbrev pub named : Tcb → List ℕ → Tcb
named tcb name = record tcb { name = strncpy tcb.name name 15 }

abbrev pub updated : Option Tcbs → Result Tcbs
updated none = failed ebade
updated (some tcbs) = succeeded tcbs

unfoldable pub thrd_set_name : ℕ → List ℕ → Tcbs → Result Tcbs
thrd_set_name thr name tcbs = elim (list_search thr tcbs) [
  | none ↦ failed enoent
  | some tcb ↦ updated (list_update thr (named tcb name) tcbs)
]

-- The bytes before the first zero.
unfoldable pub c_string : List ℕ → List ℕ
c_string [] = []
c_string (b ∷ bs) = let rest = c_string bs in if b == 0 then [] else b ∷ rest

-- What the buffer `name` holds then. `strncpy` writes `len` bytes.
unfoldable pub thrd_get_name : ℕ → List ℕ → ℕ → Tcbs → Result (List ℕ)
thrd_get_name thr name len tcbs = elim (list_search thr tcbs) [
  | none ↦ failed enoent
  | some tcb ↦
      if leb len (length name) then succeeded (strncpy name (c_string tcb.name) len) else overflowed
]

unfoldable thrd_set_prior : (thr prior : ℕ) → Result (Unit {0})
thrd_set_prior thr prior = failed enotsup

unfoldable thrd_get_prior : ℕ → Result ℕ
thrd_get_prior thr = failed enotsup

unfoldable thrd_set_affinity : (thr cpuset : ℕ) → Result (Unit {0})
thrd_set_affinity thr cpuset = failed enotsup

unfoldable thrd_get_affinity : (thr cpuset : ℕ) → Result (Unit {0})
thrd_get_affinity thr cpuset = failed enotsup

-- An update of a block that is there changes that block only.
abbrev Replaced : ℕ → Tcb → Tcbs → Option Tcbs → Type 0
Replaced thr new tcbs none = ⊥
Replaced thr new tcbs (some tcbs') =
    (list_search thr tcbs' ≡ some new)
    × ((t : ℕ) → t ≢ thr → list_search t tcbs' ≡ list_search t tcbs)

update-Replaced :
    (thr : ℕ) (old new : Tcb) (tcbs : Tcbs)
    → list_search thr tcbs ≡ some old
    → Replaced thr new tcbs (list_update thr new tcbs)
unfolding list_search list_update
update-Replaced thr old new [] e = ground arith
update-Replaced thr old new ((key, tcb) ∷ rest) e = ground (arith, update-Replaced thr old new rest)

with_update :
    (thr : ℕ) (new : Tcb) (tcbs : Tcbs) (r : Option Tcbs)
    → Replaced thr new tcbs r
    → (tcbs' : Tcbs) × (updated r ≡ succeeded tcbs') × Replaced thr new tcbs (some tcbs')
with_update thr new tcbs none ok = absurd ok
with_update thr new tcbs (some tcbs') ok = (tcbs', refl, ok)

c_string-padded :
    (k m : ℕ) (name : List ℕ)
    → k ≤ m
    → 0 ∉ name
    → c_string (take k (name ++ replicate m 0) ++ 0 ∷ []) ≡ take k name
unfolding c_string
c_string-padded zero m name le no_zero = refl
c_string-padded (suc k) zero name le no_zero = absurd (omega arith)
c_string-padded (suc k) (suc m) [] le no_zero = refl
c_string-padded (suc k) (suc m) (b ∷ name) le no_zero =
    ground (arith, c_string-padded k (suc m) name)

-- For a thread with a control block whose last byte of the name is zero, a name without zero bytes,
-- and a buffer of `len` bytes or more: naming the thread succeeds; the name in its block is the
-- first 15 bytes of the new one, padded with zeros, and the last byte as it was, and the rest of the
-- block and the blocks of other threads are as they were. Asked for its name, the call then puts
-- the first 15 bytes of the name into the buffer, cut to `len` bytes or padded with zeros, and
-- leaves the rest of the buffer.
pub set_name-get_name :
    (thr : ℕ) (name buffer : List ℕ) (len : ℕ) (tcb : Tcb) (tcbs : Tcbs)
    → list_search thr tcbs ≡ some tcb
    → drop 15 tcb.name ≡ 0 ∷ []
    → 0 ∉ name
    → len ≤ length buffer
    → (tcbs' : Tcbs) × (thrd_set_name thr name tcbs ≡ succeeded tcbs')
      × (list_search thr tcbs'
          ≡ some (record {
            thr = tcb.thr;
            name = take 15 (name ++ replicate 15 0) ++ 0 ∷ [];
            suspend = tcb.suspend;
          }))
      × ((t : ℕ) → t ≢ thr → list_search t tcbs' ≡ list_search t tcbs)
      × (thrd_get_name thr buffer len tcbs'
          ≡ succeeded (take len (take 15 name ++ replicate len 0) ++ drop len buffer))
unfolding thrd_set_name thrd_get_name strncpy
set_name-get_name thr name buffer len tcb tcbs e last no_zero fits =
    let (tcbs', is, (found, others)) =
      with_update thr (named tcb name) tcbs (list_update thr (named tcb name) tcbs)
        (update-Replaced thr tcb (named tcb name) tcbs e) in
    let text = take 15 (name ++ replicate 15 0) in
    let block : list_search thr tcbs'
        ≡ some (record { thr = tcb.thr; name = text ++ 0 ∷ []; suspend = tcb.suspend }) =
      found ∙ ap (λ bs. some (record tcb { name = text ++ bs })) last in
    let room : leb len (length buffer) ≡ true = ground arith in
    let got : c_string (text ++ 0 ∷ []) ≡ take 15 name =
      c_string-padded 15 15 name (omega arith) no_zero in
    (tcbs', rw (thrd_set_name, e, is), block, others, rw (thrd_get_name, block, room, got))

-- The `int` that a thread ends with, of 32 bits and of either sign, is what `thrd_join` stores when
-- `pthread_join` succeeds; when it fails with the error number `err`, the call fails with it.
pub join-exit :
    (res old : ℕ)
    → res < 2 ^ 32
    → (thrd_join 0 (thrd_exit res) (some old) ≡ succeeded (some res))
      × ((err status : ℕ) → err ≢ 0 → thrd_join err status (some old) ≡ failed err)
unfolding thrd_exit thrd_join
join-exit res old small =
    (ap (λ n. succeeded (some n)) (ground arith), λ err status ne. ground arith)
