-- ===== src/Libc/Ctype.antt =====
-- libc/ctype.cpp. An `int` argument is a number: the negative ones, of which only EOF is allowed,
-- are left out. A result that C tests for being nonzero is a Bool.
pub mod Case
mod Tests
use bunos.Prelude.{ℕ, ◌+◌, ◌-◌, Bool, not, ◌&&◌, ◌||◌, ltb, leb, ◌==◌, if◌then◌else◌, bit_and}

unfoldable pub isupper : ℕ → Bool
isupper c = leb 0x41 c && leb c 0x5A

unfoldable pub islower : ℕ → Bool
islower c = leb 0x61 c && leb c 0x7A

unfoldable pub isalpha : ℕ → Bool
unfolding isupper islower
isalpha c = isupper c || islower c

unfoldable pub isdigit : ℕ → Bool
isdigit c = leb 0x30 c && leb c 0x39

unfoldable pub isalnum : ℕ → Bool
isalnum c = isalpha c || isdigit c

unfoldable pub isascii : ℕ → Bool
isascii c = ltb 0 c && bit_and c 0x80 == 0

unfoldable pub isblank : ℕ → Bool
isblank c = c == 0x20 || c == 0x09

unfoldable pub iscntrl : ℕ → Bool
iscntrl c = ltb c 0x20

unfoldable pub isgraph : ℕ → Bool
isgraph c = ltb c 0x7F && ltb 0x20 c

unfoldable pub isprint : ℕ → Bool
isprint c = ltb c 0x7F && leb 0x20 c

unfoldable pub ispunct : ℕ → Bool
ispunct c = isprint c && not (isalpha c)

unfoldable pub isspace : ℕ → Bool
isspace c = c == 0x0D || c == 0x09 || c == 0x0B || c == 0x0C || c == 0x20

unfoldable pub isxdigit : ℕ → Bool
isxdigit c = isdigit c || leb 0x61 c && leb c 0x7A || leb 0x41 c && leb c 0x5A

unfoldable pub tolower : ℕ → ℕ
tolower c = if not (isalpha c) then c else if leb c 0x61 then c + 0x20 else c

unfoldable pub toupper : ℕ → ℕ
toupper c = if not (isalpha c) then c else if leb 0x61 c then c - 0x20 else c
