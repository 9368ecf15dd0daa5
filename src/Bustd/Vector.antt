-- ===== src/Bustd/Vector.antt =====
-- `Vector<T>` of bustd/vector.hpp. The array `m_data` is a list of slots; a slot without an object
-- is `none`, and reading one is a fault. `size_of` is the size of a T, and `has_room n` says
-- whether malloc finds `n` bytes, for an `n` above 0: it returns a null pointer for 0 bytes. The
-- moves of whole vectors and the iterators are left out.
pub mod Slots
pub mod Grow
pub mod Shrink
pub mod Copy
mod Tests
use bunos.Prelude.{
  ℕ, zero, suc, ◌+◌, ◌-◌, ◌/◌, ◌%◌, ◌^◌, max, Bool, true, false, not, Option, some, none, List, [],
  Result, ok, timeout, ◌>>=◌, ◌>>◌, check, access, store, ltb, leb, ◌==◌, ◌!=◌, ◌&&◌, if◌then◌else◌,
  add32, sub32, mul32, get_elem?, take, drop, replicate, overwrite,
}

pub record Vector (A : Type 0) : Type 0 where
  pub size : ℕ
  pub capacity : ℕ
  pub slots : List (Option A)

abbrev pub empty_vector : {A : Type 0} → Vector A
empty_vector = record { size = 0; capacity = 0; slots = [] }

module _ {A : Type 0} where
  -- A write to `*slot(i)`.
  unfoldable pub put_slot : Vector A → ℕ → Option A → Result (Vector A)
  put_slot v i c = do
    check (ltb i v.capacity)
    slots' ← store v.slots i c
    ok (record v { slots = slots' })

  -- `*safe_slot(i)`, which `at` and `operator[]` return.
  unfoldable pub at : Vector A → ℕ → Result A
  at v i = do check (ltb i v.size); c ← access (get_elem? v.slots i); access c

  unfoldable pub back : Vector A → Result A
  unfolding at
  back v = at v (sub32 v.size 1)

  -- `pop(T &)`.
  unfoldable pub pop : Vector A → Result (A × Vector A)
  unfolding put_slot
  pop v = do
    check (ltb 0 v.size)
    let n = sub32 v.size 1
    check (ltb n v.capacity)
    c ← access (get_elem? v.slots n)
    x ← access c
    v' ← put_slot v n none
    ok (x, record v' { size = n })

  -- `pop()`.
  unfoldable pub drop_last : Vector A → Result (Vector A)
  unfolding put_slot
  drop_last v = do
    check (ltb 0 v.size)
    v' ← put_slot v (sub32 v.size 1) none
    ok (record v' { size = sub32 v.size 1 })

  -- The loop of `clear`; every round makes the vector shorter, so the size is enough fuel.
  unfoldable pub clear_loop : ℕ → Vector A → Result (Vector A)
  unfolding drop_last
  clear_loop zero v = if v.size == 0 then ok v else timeout
  clear_loop (suc fuel) v =
      let rest : Result (Vector A) = (do v' ← drop_last v; clear_loop fuel v') in
      if v.size == 0 then ok v else rest

  unfoldable pub clear : Vector A → Result (Vector A)
  unfolding clear_loop
  clear v = clear_loop v.size v

  -- The loop of `remove` for a T that is not trivially copyable: `k` rounds from `i` on.
  unfoldable pub shift_loop : ℕ → ℕ → Vector A → Result (Vector A)
  unfolding put_slot
  shift_loop zero i v = ok v
  shift_loop (suc k) i v = do
    check (ltb (i + 1) v.capacity)
    c ← access (get_elem? v.slots (i + 1))
    x ← access c
    v' ← put_slot v i (some x)
    shift_loop k (i + 1) v'

  -- `memmove` on the slots.
  unfoldable pub move_down : Vector A → ℕ → Result (Vector A)
  move_down v index = do
    check (ltb (index + 1) v.capacity)
    ok (record v {
      slots = overwrite v.slots index (take (v.size - index - 1) (drop (index + 1) v.slots));
    })

  -- `trivial` is `is_trivially_coyable<T>`.
  unfoldable pub remove : Bool → Vector A → ℕ → Result (Vector A)
  unfolding put_slot shift_loop move_down
  remove trivial v index = do
    check (ltb index v.size)
    v1 ← put_slot v index none
    v2 ←
        (if trivial
          then (if ltb (index + 1) v.size then move_down v1 index else ok v1)
          else shift_loop (v.size - index) index v1)
    ok (record v2 { size = sub32 v.size 1 })

  -- Every round either removes an element or goes on to the next one, so the size is enough fuel.
  unfoldable pub remove_if : ℕ → Bool → (A → Bool) → ℕ → Vector A → Result (Vector A)
  unfolding at remove
  remove_if zero trivial f i v = if ltb i v.size then timeout else ok v
  remove_if (suc fuel) trivial f i v =
      let round : Result (Vector A) = (do
        x ← at v i
        v' ← (if f x then remove trivial v i else ok v)
        remove_if fuel trivial f (i + 1) v') in
      if ltb i v.size then round else ok v

  -- Round `i` of the loop of `set_size`, with `k` rounds left: `fresh` is the new array.
  unfoldable pub move_loop : ℕ → ℕ → Vector A → List (Option A) → Result (List (Option A))
  unfolding at
  move_loop zero i v fresh = ok fresh
  move_loop (suc k) i v fresh = do
    x ← at v i
    fresh' ← store fresh i (some x)
    move_loop k (i + 1) v fresh'

  module _ (size_of : ℕ) (has_room : ℕ → Bool) where
    unfoldable pub set_size : Vector A → ℕ → Result (Vector A)
    unfolding move_loop
    set_size v new_size = do
      check (leb v.size new_size)
      let bytes = mul32 new_size size_of
      check (bytes != 0 && has_room bytes)
      slots' ← move_loop v.size 0 v (replicate (bytes / size_of) none)
      ok (record { size = v.size; capacity = new_size; slots = slots' })

    unfoldable pub grow : Vector A → Result (Vector A)
    unfolding set_size
    grow v = do
      let new_size = max (mul32 v.size 2) 1
      v' ← set_size v new_size
      check (ltb v.size new_size)
      ok v'

    unfoldable pub push : Vector A → A → Result (Vector A)
    unfolding grow put_slot
    push v x = do
      v' ← (if ltb v.capacity (add32 v.size 1) then grow v else ok v)
      v'' ← put_slot v' v'.size (some x)
      ok (record v'' { size = add32 v''.size 1 })

    unfoldable pub resize_to_fit : Vector A → Result (Vector A)
    unfolding set_size
    resize_to_fit v = set_size v v.size

    -- `Vector(preallocated)`.
    unfoldable pub preallocated : ℕ → Result (Vector A)
    unfolding set_size
    preallocated n = if n == 0 then ok empty_vector else set_size empty_vector n

    -- The two loops of `fill`.
    unfoldable pub assign_loop : ℕ → ℕ → A → Vector A → Result (Vector A)
    assign_loop zero i x v = ok v
    assign_loop (suc k) i x v = do
      check (ltb i v.size)
      slots' ← store v.slots i (some x)
      assign_loop k (i + 1) x (record v { slots = slots' })

    unfoldable pub push_loop : ℕ → A → Vector A → Result (Vector A)
    unfolding push
    push_loop zero x v = ok v
    push_loop (suc k) x v = do v' ← push v x; push_loop k x v'

    unfoldable pub fill : Vector A → A → ℕ → Result (Vector A)
    unfolding assign_loop push_loop
    fill v x upto = do v' ← assign_loop v.size 0 x v; push_loop (upto - v'.size) x v'

    -- Round `i` of `operator=`, with `k` rounds left.
    unfoldable pub copy_loop : ℕ → ℕ → Vector A → Vector A → Result (Vector A)
    unfolding at push
    copy_loop zero i other v = ok v
    copy_loop (suc k) i other v = do x ← at other i; v' ← push v x; copy_loop k (i + 1) other v'

    unfoldable pub assign : Vector A → Vector A → Result (Vector A)
    unfolding clear copy_loop
    assign v other = do v' ← clear v; copy_loop other.size 0 other v'

    -- `Vector(const Vector &)`.
    unfoldable pub copy : Vector A → Result (Vector A)
    unfolding preallocated assign
    copy other = do v ← preallocated other.size; assign v other
