-- ===== src/Futures/Handle.antt =====
-- The handles of futures: `get_handle`, `expired` and `lock` of include/daw/fs/future_result.h and
-- include/daw/fs/impl/future_result_impl.h, and the futures and continuations that share the ownership
-- of the data. The count of owners is that of `std::shared_ptr`.
use function_queue.Prelude.{
  ℕ, ◌+◌, ◌-◌, ◌≡◌, refl, Bool, true, false, not, ◌&&◌, List, [], ◌∷◌, Option, none, some, arith,
  if◌then◌else◌, ◌==◌, foldl,
}

-- The data of one future: how many own it, how many `future_result_t` objects there are among these,
-- and whether `m_next` has a function, which holds `self = *this` and so is an owner too.
pub record Owned : Type 0 where
  pub use_count : ℕ
  pub futures : ℕ
  pub continued : Bool

-- A new future.
abbrev pub make_shared : Owned
make_shared = record { use_count = 1; futures = 1; continued = false }

abbrev pub expired : Owned → Bool
expired d = d.use_count == 0

-- One more `future_result_t`.
abbrev pub share : Owned → Owned
share d = record { use_count = d.use_count + 1; futures = d.futures + 1; continued = d.continued }

-- `lock`: a new future for the data, if there is an owner.
unfoldable pub lock : Owned → Option Owned
lock d = if expired d then none else some (share d)

-- The copy constructor. Nothing can be copied when no future is left.
abbrev pub copy_construct : Owned → Owned
copy_construct d = if d.futures == 0 then d else share d

-- The move constructor copies `other.m_data`, and the moved future stays an owner.
abbrev pub move_construct : Owned → Owned
move_construct d = if d.futures == 0 then d else share d

abbrev pub destroy : Owned → Owned
destroy d =
    if d.futures == 0
    then d
    else record { use_count = d.use_count - 1; futures = d.futures - 1; continued = d.continued }

-- `next` and `fork` on a future that has no continuation yet.
abbrev pub set_next : Owned → Owned
set_next d =
    if d.futures == 0
    then d
    else if d.continued
    then d
    else record { use_count = d.use_count + 1; futures = d.futures; continued = true }

pub data Use : Type 0 where
  copies moves destroys continues locks : Use

abbrev pub relock : Option Owned → Owned → Owned
relock none d = d
relock (some d') d = d'

unfoldable pub use_future : Owned → Use → Owned
unfolding lock
use_future d copies = copy_construct d
use_future d moves = move_construct d
use_future d destroys = destroy d
use_future d continues = set_next d
use_future d locks = relock (lock d) d

abbrev owner : Bool → ℕ
owner b = if b then 1 else 0

owners-use :
    (d : Owned) (u : Use)
    → d.use_count ≡ d.futures + owner d.continued
    → (use_future d u).use_count ≡ (use_future d u).futures + owner (use_future d u).continued
unfolding use_future
owners-use d copies h = ground (arith, h)
owners-use d moves h = ground (arith, h)
owners-use d destroys h = ground (arith, h)
owners-use d continues h = ground (arith, h)
owners-use d locks h = ground (arith, h)

owners :
    (d : Owned) (us : List Use)
    → d.use_count ≡ d.futures + owner d.continued
    → (foldl use_future d us).use_count
      ≡ (foldl use_future d us).futures + owner (foldl use_future d us).continued
owners d [] h = h
owners d (u ∷ us) h = owners (use_future d u) us (owners-use d u h)

continued-use : (d : Owned) (u : Use) → d.continued ≡ true → (use_future d u).continued ≡ true
unfolding use_future
continued-use d copies c = ground (arith, c)
continued-use d moves c = ground (arith, c)
continued-use d destroys c = ground (arith, c)
continued-use d continues c = ground (arith, c)
continued-use d locks c = ground (arith, c)

-- Whatever is done with a future, its copies and its handles: a handle has expired if and only if no
-- future object is left and no continuation was ever set, and `lock` gives a further future, with the
-- same data, if and only if the handle has not expired.
pub expired-use_future :
    (us : List Use)
    → (expired (foldl use_future make_shared us) ≡ (
        (foldl use_future make_shared us).futures == 0
        && not (foldl use_future make_shared us).continued))
      × (lock (foldl use_future make_shared us) ≡ (
          if (foldl use_future make_shared us).futures == 0
            && not (foldl use_future make_shared us).continued
          then none
          else some (share (foldl use_future make_shared us))))
unfolding lock
expired-use_future us =
    let d = foldl use_future make_shared us in
    let h : d.use_count ≡ d.futures + owner d.continued = owners make_shared us refl in
    (ground (arith, h), ground (arith, h))

-- The continuation owns the data that owns it: once it is set, no handle ever expires, though every
-- future is destroyed.
expired-continued :
    (us vs : List Use)
    → (foldl use_future make_shared us).continued ≡ true
    → expired (foldl use_future (foldl use_future make_shared us) vs) ≡ false
expired-continued us vs c =
    let d = foldl use_future make_shared us in
    let e = foldl use_future d vs in
    let h : e.use_count ≡ e.futures + owner e.continued =
      owners d vs (owners make_shared us refl) in
    let k : e.continued ≡ true = still d vs c in ground (arith, h, k)
  where
    still :
        (d : Owned) (vs : List Use) → d.continued ≡ true → (foldl use_future d vs).continued ≡ true
    still d [] c = c
    still d (v ∷ vs) c = still (use_future d v) vs (continued-use d v c)
