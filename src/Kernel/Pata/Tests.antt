-- ===== src/Kernel/Pata/Tests.antt =====
-- A drive of eight sectors of four bytes, which is busy once after a command to read.
use bunos.Prelude.{
  ℕ, zero, suc, ◌+◌, ◌*◌, ◌%◌, ◌^◌, ◌≡◌, ◌≢◌, refl, List, [], ◌∷◌, ok, ◌==◌, if◌then◌else◌, arith,
  false,
}
use bunos.Kernel.Pata.{Bus, DriveData, read_sectors_polling, read_bytes_polling}
use bunos.Kernel.Pata.Serves.{
  Serves, served, sector, free, busy, has_data, no_word, word, all_bytes,
}
use bunos.Kernel.Pata.Sectors.{sectors_of, IsDrive, read_sectors_polling_lem}
use bunos.Kernel.Pata.Bytes.{span, read_bytes_polling_lem}

-- The registers, whether the drive is busy, and the words that it has to hand over.
record Sim : Type 0 where
  head : ℕ
  count : ℕ
  low : ℕ
  mid : ℕ
  high : ℕ
  delay : ℕ
  words : List ℕ

-- A sector holds its number and 0x0403.
abbrev image : ℕ → List ℕ
image i = i ∷ 0x0403 ∷ []

abbrev words_of : ℕ → ℕ → List ℕ
words_of i zero = []
words_of i (suc k) = i ∷ 0x0403 ∷ words_of (i + 1) k

abbrev start : Sim → Sim
start d = record d {
  delay = 1;
  words = words_of (d.low + d.mid * 2 ^ 8 + d.high * 2 ^ 16 + d.head % 16 * 2 ^ 24) d.count;
}

abbrev on_write : ℕ → ℕ → Sim → Sim
on_write port v d =
    if port == 0x1F2
    then record d { count = v }
    else if port == 0x1F3
    then record d { low = v }
    else if port == 0x1F4
    then record d { mid = v }
    else if port == 0x1F5
    then record d { high = v }
    else if port == 0x1F6
    then record d { head = v }
    else if port == 0x1F7
    then (if v == 0x20 then start d else d)
    else d

abbrev status_of : ℕ → List ℕ → ℕ
status_of (suc k) ws = 0x80
status_of zero [] = 0x50
status_of zero (w ∷ ws) = 0x58

abbrev after_status : ℕ → ℕ
after_status zero = 0
after_status (suc k) = k

abbrev next_word : Sim → List ℕ → Sim × ℕ
next_word d [] = (d, 0)
next_word d (w ∷ ws) = (record d { words = ws }, w)

abbrev simulated : Bus Sim
simulated = record {
  in_u8 = λ port d. (record d { delay = after_status d.delay }, status_of d.delay d.words);
  in_u16 = λ port d. next_word d d.words;
  out_u8 = on_write;
}

abbrev Idle : Sim → Type 0
Idle d = (d.delay ≡ 0) × (d.words ≡ [])

abbrev having : Sim → ℕ → List ℕ → Sim
having d delay words = record d { delay = delay; words = words }

data_bit : ◌≢◌ {A = ℕ} 8 0
data_bit = omega arith

busy_bit : ◌≢◌ {A = ℕ} 128 0
busy_bit = omega arith

words_of-Serves :
    (d : Sim) (i k : ℕ)
    → Serves simulated 2 2 (having d 0 (words_of i k)) (sectors_of image i k) (having d 0 [])
words_of-Serves d i zero = served refl refl
words_of-Serves d i (suc k) =
    sector {s1 = having d 0 (words_of i (suc k))} {s2 = having d 0 (words_of i (suc k))}
      {s3 = having d 0 (words_of (i + 1) k)} (free {status = 0x58} refl refl)
      (has_data {status = 0x58} refl data_bit refl) refl (word refl (word refl no_word))
      (words_of-Serves d (i + 1) k)

start-Serves :
    (d : Sim) (i k : ℕ)
    → k ≢ 0
    → Serves simulated 2 2 (having d 1 (words_of i k)) (sectors_of image i k) (having d 0 [])
start-Serves d i zero some_sector = absurd (some_sector refl)
start-Serves d i (suc k) some_sector =
    sector {s1 = having d 0 (words_of i (suc k))} {s2 = having d 0 (words_of i (suc k))}
      {s3 = having d 0 (words_of (i + 1) k)}
      (busy {status = 0x80} refl busy_bit (free {status = 0x58} refl refl))
      (has_data {status = 0x58} refl data_bit refl) refl (word refl (word refl no_word))
      (words_of-Serves d (i + 1) k)

simulated-IsDrive : IsDrive simulated 2 2 8 image Idle
simulated-IsDrive = record {
  reads = λ d head count low mid high idle lba some_sector few l m h inside.
      let ne : count ≢ 0 = omega arith in
      (
        _,
        start-Serves (record d { head = head; count = count; low = low; mid = mid; high = high })
            (low + mid * 2 ^ 8 + high * 2 ^ 16 + head % 16 * 2 ^ 24) count ne,
        (refl, refl),
      );
}

abbrev at_rest : Sim
at_rest = record { head = 0; count = 0; low = 7; mid = 7; high = 7; delay = 0; words = [] }

abbrev tiny_drive : DriveData
tiny_drive = record {
  lba28_sector_count = 8;
  supports_lba48 = false;
  lba48_sector_count = 8;
  must_use_lba48 = false;
  max_multiple_rw_count = 1;
  sector_size_in_bytes = 4;
}

-- The sectors 5 and 6.
read_sectors_polling_lem_example :
    (s' : Sim) × (read_sectors_polling simulated tiny_drive 2
        (9 ∷ 9 ∷ 9 ∷ 9 ∷ 9 ∷ 9 ∷ 9 ∷ 9 ∷ 9 ∷ [])
        5
        2
        at_rest
      ≡ ok (s', 5 ∷ 0 ∷ 3 ∷ 4 ∷ 6 ∷ 0 ∷ 3 ∷ 4 ∷ 9 ∷ []))
    × Idle s'
unfolding all_bytes
read_sectors_polling_lem_example =
    read_sectors_polling_lem simulated simulated-IsDrive tiny_drive 2
      (9 ∷ 9 ∷ 9 ∷ 9 ∷ 9 ∷ 9 ∷ 9 ∷ 9 ∷ 9 ∷ []) 5 2 at_rest refl refl (refl, refl) (omega arith)
      (omega arith) (omega arith) (omega arith) (omega arith) (omega arith)

-- The bytes 12 to 16 of the disk, the whole sector 3 and the first byte of sector 4.
read_bytes_polling_lem_example :
    (s' : Sim) × (read_bytes_polling simulated tiny_drive 2
        (9 ∷ 9 ∷ 9 ∷ 9 ∷ 9 ∷ 9 ∷ [])
        12
        5
        at_rest
      ≡ ok (s', (4, 3 ∷ 0 ∷ 3 ∷ 4 ∷ 4 ∷ 9 ∷ [])))
    × Idle s'
unfolding all_bytes span
read_bytes_polling_lem_example =
    read_bytes_polling_lem simulated simulated-IsDrive tiny_drive 2 (9 ∷ 9 ∷ 9 ∷ 9 ∷ 9 ∷ 9 ∷ []) 12
      5 2 at_rest refl refl (refl, refl) refl (omega arith) (omega arith) (omega arith)
      (omega arith) (omega arith) (omega arith) (omega arith)
