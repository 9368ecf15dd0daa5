-- ===== src/Kernel/Keyboard/Typing.antt =====
-- What a reader of the keyboard file sees of the keys that are pressed and released.
use bunos.Prelude.{
  ℕ, ◌+◌, ◌≡◌, ◌≢◌, refl, ap, ◌∙◌, Bool, true, false, ◌||◌, List, [], ◌∷◌, ok, arith, ◌==◌, ◌!=◌,
  if◌then◌else◌, Bool-cases, inl, inr,
}
use bunos.Bustd.RingBuffer.{Ring}
use bunos.Bustd.RingBuffer.Contents.{contents}
use bunos.Kernel.Keyboard.{
  Keyboard, KeyboardFile, expecting_key_code, relase, is_expecting_key_code, feed_scancode,
  handle_message, handle_all, file_size,
}
use bunos.Kernel.Keyboard.Layout.{layout, Row, layout_lem}
use bunos.Kernel.Keyboard.Scancodes.{code, scancode_to_ascii, with_shift}

-- The codes that a keyboard sends while keys go down and up, with the text that they mean. The two
-- Booleans say which shift key is down. The other keys are those of the layout.
pub data Types : Bool → Bool → List ℕ → List ℕ → Type 0 where
  stop : {l r : Bool} → Types l r [] []
  left_down :
      {r : Bool} {codes text : List ℕ} → Types true r codes text → Types false r (0x12 ∷ codes) text
  left_up :
      {r : Bool} {codes text : List ℕ}
      → Types false r codes text
      → Types true r (0xF0 ∷ 0x12 ∷ codes) text
  right_down :
      {l : Bool} {codes text : List ℕ} → Types l true codes text → Types l false (0x59 ∷ codes) text
  right_up :
      {l : Bool} {codes text : List ℕ}
      → Types l false codes text
      → Types l true (0xF0 ∷ 0x59 ∷ codes) text
  key_down :
      {l r : Bool} {codes text : List ℕ} {c plain shifted : ℕ}
      → Row layout c plain shifted
      → Types l r codes text
      → Types l r (c ∷ codes) ((if l || r then shifted else plain) ∷ text)
  key_up :
      {l r : Bool} {codes text : List ℕ} {c plain shifted : ℕ}
      → Row layout c plain shifted
      → Types l r codes text
      → Types l r (0xF0 ∷ c ∷ codes) text

abbrev pub bit : Bool → ℕ
bit true = 1
bit false = 0

-- The driver, waiting for a key with these shift keys down.
abbrev pub ready : Bool → Bool → Ring → Keyboard
ready l r q = record {
  scancode_set = 3;
  shift_count = bit l + bit r;
  state = expecting_key_code;
  command_queue = q;
}

abbrev pub releasing : Bool → Bool → Ring → Keyboard
releasing l r q = record (ready l r q) { state = relase }

silent_ne : (c s : ℕ) → scancode_to_ascii s ≡ 0 → scancode_to_ascii c ≢ 0 → (c == s) ≡ false
silent_ne c s e h = elim (Bool-cases (c == s)) [
  | inl t ↦ let same : c ≡ s = ground (arith, t) in absurd (h (ap scancode_to_ascii same ∙ e))
  | inr t ↦ t
]

pub record IsOther (c : ℕ) : Type 0 where
  pub release_ne : (c == 0xF0) ≡ false
  pub left_ne : (c == 0x12) ≡ false
  pub right_ne : (c == 0x59) ≡ false
  pub has_ascii : (scancode_to_ascii c != 0) ≡ true

other : (c : ℕ) → scancode_to_ascii c ≢ 0 → IsOther c
unfolding scancode_to_ascii
other c h = record {
  release_ne = silent_ne c 0xF0 refl h;
  left_ne = silent_ne c 0x12 refl h;
  right_ne = silent_ne c 0x59 refl h;
  has_ascii = ground arith;
}

prefix_message :
    (l r : Bool) (q : Ring) (f : KeyboardFile)
    → handle_message (ready l r q) f 0xF0 ≡ ok ([], releasing l r q, f)
unfolding handle_message feed_scancode is_expecting_key_code code
prefix_message l r q f = refl

up_message :
    (l r : Bool) (q : Ring) (f : KeyboardFile) (c : ℕ)
    → IsOther c
    → handle_message (releasing l r q) f c ≡ ok ([], ready l r q, f)
unfolding handle_message feed_scancode is_expecting_key_code code
up_message l r q f c o = rw (o.left_ne, o.right_ne, o.has_ascii)

silent_message :
    (l r : Bool) (q : Ring) (f : KeyboardFile) (s : ℕ)
    → scancode_to_ascii s ≡ 0
    → s ≢ 0x12
    → s ≢ 0x59
    → handle_message (releasing l r q) f s ≡ ok ([], releasing l r q, f)
unfolding handle_message feed_scancode is_expecting_key_code code
silent_message l r q f s silent left right =
    let left_ne : (s == 0x12) ≡ false = ground arith in
    let right_ne : (s == 0x59) ≡ false = ground arith in rw (left_ne, right_ne, silent)

shown :
    (l r : Bool) {c plain shifted : ℕ}
    → Row layout c plain shifted
    → (if l || r then with_shift (scancode_to_ascii c) else scancode_to_ascii c)
      ≡ (if l || r then shifted else plain)
shown l r row = let (ascii, shift, _) = layout_lem row in rw (ascii, shift)

pub held : KeyboardFile → List ℕ
held f = contents file_size f.buffer

-- Releasing a key that has no character and is no shift key leaves the driver in the released
-- state, and it takes the code of the next character key for that key's release: the key is lost.
pub handle_all_silent :
    (l r : Bool) (q : Ring) (f : KeyboardFile) (s c : ℕ)
    → scancode_to_ascii s ≡ 0
    → s ≢ 0x12
    → s ≢ 0x59
    → scancode_to_ascii c ≢ 0
    → handle_all (ready l r q) f (0xF0 ∷ s ∷ c ∷ []) ≡ ok ([], ready l r q, f)
unfolding handle_all
handle_all_silent l r q f s c silent left right h = rw (
  prefix_message l r q f,
  silent_message l r q f s silent left right,
  up_message l r q f c (other c h),
)
