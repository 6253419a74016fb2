-- ===== src/Futures/VoidMember.antt =====
-- `member_data_t<void>` of include/daw/fs/impl/future_result_impl.h and src/future_result.cpp, where
-- it differs from `member_data_t`: what `pass_next` checks, and when the continuation of `next`
-- throws. A call that throws has changed the world too, so it gives a world and how it ended.
use function_queue.Prelude.{ℕ, Bool, true, false, [], ◌∷◌, ◌++◌, none, some, length, get_elem?}
use function_queue.Futures.Expected.{Expected, value, exception}
use function_queue.Latch.{fetch_sub}
use function_queue.Futures.Member.{
  ready, continued, is_status_ready, Branch, Continuation, then_one, then_all, Member, World,
  new_member, put, task_of,
}

abbrev pub Void : Type 0
Void = Unit {0}

pub data Ended : Type 0 where
  finished : Ended
  -- A value: the number of the future that `next` gives.
  gave : ℕ → Ended
  threw : Ended
  undefined_end : Ended

-- The continuation of `next` throws `unable_to_add_task_exception` when `add_task` has succeeded. It
-- is only called on a value here: `pass_next` rejects an exception before.
abbrev pub call_next : Bool → World Void → Branch Void → World Void × Ended
call_next added w b = elim added [
  | true ↦ (record { members = w.members; tasks = w.tasks ++ task_of tt b ∷ [] }, threw)
  | false ↦ (w, finished)
]

-- `pass_next`. `next` alone makes continuations here: `fork` does not compile, since it calls a function
-- that does not exist on the exception.
abbrev pub pass_next : Bool → World Void → Continuation Void → Expected Void → World Void × Ended
pass_next added w (then_one b) (value v) = call_next added w b
pass_next added w (then_all bs) (value v) = (w, undefined_end)
pass_next added w c exception = (w, threw)

-- A member with the result stored.
abbrev pub with_result : Member Void → Expected Void → Member Void
with_result m e = record { next = m.next; count = m.count; status = m.status; result = some e }

abbrev pub make_ready : Member Void → Member Void
make_ready m = record {
  next = m.next;
  count = fetch_sub m.count;
  status = ready;
  result = m.result;
}

-- `set_value( expected_result_t )`; `added` is what `add_task` answers.
unfoldable pub set_value : Bool → World Void → ℕ → Expected Void → World Void × Ended
set_value added w i e = elim (get_elem? w.members i) [
  | none ↦ (w, undefined_end)
  | some m ↦ elim m.next [
    | some c ↦ pass_next added (put w i (with_result m e)) c e
    | none ↦ (put w i (make_ready (with_result m e)), finished)
  ]
]

-- `set_exception`, in the handler of `from_code` when setting the value threw.
abbrev pub catch_exception : Bool → ℕ → World Void × Ended → World Void × Ended
catch_exception added i (w, threw) = set_value added w i exception
catch_exception added i (w, finished) = (w, finished)
catch_exception added i (w, gave j) = (w, gave j)
catch_exception added i (w, undefined_end) = (w, undefined_end)

-- `from_code`
unfoldable pub from_code : Bool → World Void → ℕ → (Void → Expected Void) → World Void × Ended
unfolding set_value
from_code added w i func = elim (func tt) [
  | value v ↦ catch_exception added i (set_value added w i (value v))
  | exception ↦ set_value added w i exception
]

-- `next` after a ready future has passed its result on.
abbrev pub end_next : ℕ → ℕ → World Void × Ended → World Void × Ended
end_next i j (w, threw) = (w, threw)
end_next i j (w, undefined_end) = (w, undefined_end)
end_next i j (w, gave k) = (w, gave k)
end_next i j (w, finished) = elim (get_elem? w.members i) [
  | none ↦ (w, undefined_end)
  | some m ↦ (
    put w i (record { next = m.next; count = m.count; status = continued; result = none }),
    gave j,
  )
]

-- `next`
unfoldable pub next : Bool → World Void → ℕ → (Void → Expected Void) → World Void × Ended
next added w i func = elim (get_elem? w.members i) [
  | none ↦ (w, undefined_end)
  | some m ↦ elim m.next [
    | some c ↦ (w, threw)
    | none ↦
        let j = length w.members in
        let c : Continuation Void = then_one (record { func = func; target = j }) in
        let w' : World Void =
          put (record { members = w.members ++ new_member ∷ []; tasks = w.tasks }) i
            (record { next = some c; count = m.count; status = m.status; result = m.result }) in
        elim (is_status_ready m.status) [
          | true ↦ elim m.result [
            | none ↦ (w', undefined_end)
            | some e ↦ end_next i j (pass_next added w' c e)
          ]
          | false ↦ (
            put w' i (record {
              next = some c;
              count = fetch_sub m.count;
              status = continued;
              result = m.result;
            }),
            gave j,
          )
        ]
  ]
]
