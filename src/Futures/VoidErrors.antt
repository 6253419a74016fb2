-- ===== src/Futures/VoidErrors.antt =====
-- What the futures without a value do once `next` has been called on them.
use function_queue.Prelude.{
  ℕ, ◌≡◌, ◌≢◌, refl, sym, ap, ◌∙◌, true, false, List, [], ◌∷◌, ◌++◌, Option, none, some, length,
  get_elem?, set, get_elem?-set_self, get_elem?-set_ne, get_elem?-lt, append-nil,
}
use function_queue.Futures.Expected.{Expected, value, exception}
use function_queue.Latch.{fetch_sub}
use function_queue.Futures.Member.{
  FutureStatus, ready, continued, is_status_ready, Branch, Continuation, then_one, CodeTask, Member,
  World, new_member, put, task_of,
}
use function_queue.Futures.VoidMember.{
  Void, Ended, finished, gave, threw, undefined_end, pass_next, with_result, make_ready, set_value,
  catch_exception, from_code, end_next, next,
}

-- The tasks that a continuation adds for how the function ended: none after an exception.
abbrev pub tasks_after : Expected Void → Branch Void → List (CodeTask Void)
tasks_after (value v) b = task_of tt b ∷ []
tasks_after exception b = []

set_value-continued :
    (w : World Void) (i : ℕ) (m : Member Void) (b : Branch Void) (e : Expected Void)
    → get_elem? w.members i ≡ some m
    → m.next ≡ some (then_one b)
    → set_value true w i e ≡ (
      record { members = set w.members i (with_result m e); tasks = w.tasks ++ tasks_after e b },
      threw,
    )
unfolding set_value
set_value-continued w i m b e at n = ap found at ∙ ap (check m) n ∙ passed e
  where
    check : Member Void → Option (Continuation Void) → World Void × Ended
    check m o = elim o [
      | some c ↦ pass_next true (put w i (with_result m e)) c e
      | none ↦ (put w i (make_ready (with_result m e)), finished)
    ]

    found : Option (Member Void) → World Void × Ended
    found o = elim o [ none ↦ (w, undefined_end) | some m ↦ check m m.next ]

    passed :
        (e' : Expected Void)
        → pass_next true (put w i (with_result m e)) (then_one b) e' ≡ (
          record {
            members = set w.members i (with_result m e);
            tasks = w.tasks ++ tasks_after e' b;
          },
          threw,
        )
    passed (value v) = refl
    passed exception =
        ap (λ ts. (record { members = set w.members i (with_result m e); tasks = ts }, threw))
          (sym (append-nil w.tasks))

-- Setting a future without a value from code ends in an exception as soon as the future has a
-- continuation and the scheduler takes tasks. When the function has returned, the task of the
-- continuation has been added first; when it has thrown, no task is added, and no other future, the
-- one of the continuation included, has changed: it never learns of the exception.
pub from_code-continued :
    (w : World Void) (i : ℕ) (m : Member Void) (b : Branch Void) (func : Void → Expected Void)
    → get_elem? w.members i ≡ some m
    → m.next ≡ some (then_one b)
    → (w' : World Void) × (from_code true w i func ≡ (w', threw))
      × (w'.tasks ≡ w.tasks ++ tasks_after (func tt) b)
      × ((j : ℕ) → i ≢ j → get_elem? w'.members j ≡ get_elem? w.members j)
unfolding from_code
from_code-continued w i m b func at n = by_end (func tt) refl
  where
    stored : Expected Void → World Void
    stored e = record {
      members = set w.members i (with_result m e);
      tasks = w.tasks ++ tasks_after e b;
    }

    both : World Void
    both = record {
      members =
          set (stored (value tt)).members i (with_result (with_result m (value tt)) exception);
      tasks = (stored (value tt)).tasks ++ [];
    }

    body : Expected Void → World Void × Ended
    body e = elim e [
      | value v ↦ catch_exception true i (set_value true w i (value v))
      | exception ↦ set_value true w i exception
    ]

    others :
        (ms : List (Member Void)) (x : Member Void) (j : ℕ)
        → i ≢ j
        → get_elem? ms j ≡ get_elem? w.members j
        → get_elem? (set ms i x) j ≡ get_elem? w.members j
    others ms x j ne h = get_elem?-set_ne ms i j x ne ∙ h

    by_end :
        (e : Expected Void)
        → func tt ≡ e
        → (w' : World Void) × (from_code true w i func ≡ (w', threw))
          × (w'.tasks ≡ w.tasks ++ tasks_after (func tt) b)
          × ((j : ℕ) → i ≢ j → get_elem? w'.members j ≡ get_elem? w.members j)
    by_end (value v) h = (
      both,
      ap body h
          ∙ ap (catch_exception true i) (set_value-continued w i m b (value v) at n)
          ∙ set_value-continued (stored (value tt)) i (with_result m (value tt)) b exception
              (get_elem?-set_self w.members i (with_result m (value tt))
                (get_elem?-lt w.members i m at))
              n,
      append-nil (stored (value tt)).tasks ∙ ap (λ e. w.tasks ++ tasks_after e b) (sym h),
      λ j ne.
          others (stored (value tt)).members (with_result (with_result m (value tt)) exception) j ne
            (others w.members (with_result m (value tt)) j ne refl),
    )
    by_end exception h = (
      stored exception,
      ap body h ∙ set_value-continued w i m b exception at n,
      ap (λ e. w.tasks ++ tasks_after e b) (sym h),
      λ j ne. others w.members (with_result m exception) j ne refl,
    )

-- `next` on a future without a value that is ready throws, whatever the future holds, when the
-- scheduler takes tasks: the caller gets no future, though the task of its function has been added if
-- the future holds no exception.
next-ready :
    (w : World Void) (i : ℕ) (m : Member Void) (e : Expected Void) (func : Void → Expected Void)
    → get_elem? w.members i ≡ some m
    → m.next ≡ none
    → m.status ≡ ready
    → m.result ≡ some e
    → (w' : World Void) × (next true w i func ≡ (w', threw))
      × (w'.tasks ≡ w.tasks ++ tasks_after e (record { func = func; target = length w.members }))
unfolding next
next-ready w i m e func at n s r = passed e (starts ∙ ap result_of r)
  where
    j : ℕ
    j = length w.members

    b : Branch Void
    b = record { func = func; target = j }

    linked : Member Void → World Void
    linked k =
        put (record { members = w.members ++ new_member ∷ []; tasks = w.tasks }) i
          (record {
            next = some (then_one b);
            count = k.count;
            status = k.status;
            result = k.result;
          })

    result_of : Option (Expected Void) → World Void × Ended
    result_of o = elim o [
      | none ↦ (linked m, undefined_end)
      | some e ↦ end_next i j (pass_next true (linked m) (then_one b) e)
    ]

    status_of : Member Void → FutureStatus → World Void × Ended
    status_of k t = elim (is_status_ready t) [
      | true ↦ elim k.result [
        | none ↦ (linked k, undefined_end)
        | some e ↦ end_next i j (pass_next true (linked k) (then_one b) e)
      ]
      | false ↦ (
        put (linked k) i (record {
          next = some (then_one b);
          count = fetch_sub k.count;
          status = continued;
          result = k.result;
        }),
        gave j,
      )
    ]

    check : Member Void → Option (Continuation Void) → World Void × Ended
    check k o = elim o [ some c ↦ (w, threw) | none ↦ status_of k k.status ]

    found : Option (Member Void) → World Void × Ended
    found o = elim o [ none ↦ (w, undefined_end) | some k ↦ check k k.next ]

    starts : next true w i func ≡ result_of m.result
    starts = ap found at ∙ ap (check m) n ∙ ap (status_of m) s

    passed :
        (e : Expected Void)
        → next true w i func ≡ result_of (some e)
        → (w' : World Void) × (next true w i func ≡ (w', threw))
          × (w'.tasks ≡ w.tasks ++ tasks_after e b)
    passed (value v) h =
        (record { members = (linked m).members; tasks = w.tasks ++ task_of tt b ∷ [] }, h, refl)
    passed exception h = (linked m, h, sym (append-nil w.tasks))
