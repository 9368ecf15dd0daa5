-- ===== src/Kernel/DebugSymbols/Tests.antt =====
-- A file of two symbols, and a lookup in them.

use bunos.Prelude.{◌≡◌, refl, true, List, [], ◌∷◌, some, ok, arith}
use bunos.Kernel.Ext2.{file}
use bunos.Kernel.Vfs.{Vfs, FileSystem, quick_read_all_data}
use bunos.Kernel.DebugSymbols.{
  SymbolEntry, symbol, symbol_file, load_debug_symbols, function_name_from_pc,
}
use bunos.Kernel.DebugSymbols.Lines.{
  Line, Lines, no_line, line, empty, char, texts, symbol_of, load_debug_symbols_lem,
}
use bunos.Kernel.DebugSymbols.Lookup.{none_before, before, behind, function_name_from_pc_lem}
use bunos.Libc.Numbers.{pos}
use bunos.Libc.Numbers.Parse.{digit, none_left}
use bunos.Libc.Format.Digits.{value_from}

-- "1f T a b" and "20 t c".
abbrev two_lines : List Line
two_lines =
    record { d = 1; ds = 15 ∷ []; kind = 0x54; name = 0x61 ∷ 0x20 ∷ 0x62 ∷ [] }
    ∷ record { d = 2; ds = 0 ∷ []; kind = 0x74; name = 0x63 ∷ [] }
    ∷ []

two_lines-Lines : Lines two_lines
unfolding value_from
two_lines-Lines =
    line
      (record {
        digits = digit (omega arith) (digit (omega arith) none_left);
        few = omega arith;
        small = omega arith;
        kind_black = omega arith;
        kind_line = omega arith;
        name_line = char (omega arith) (char (omega arith) (char (omega arith) empty));
      })
      (line
        (record {
          digits = digit (omega arith) (digit (omega arith) none_left);
          few = omega arith;
          small = omega arith;
          kind_black = omega arith;
          kind_line = omega arith;
          name_line = char (omega arith) empty;
        })
        no_line)

-- A file system of one file, which holds the lines.
abbrev one_file : FileSystem
one_file = record {
  get_inode_at_path = λ path. ok (some (record { index = 1; file_size = 16; inode_type = file }));
  data_from_inode = λ index offset bytes buffer. ok (pos 16, texts two_lines);
  list_directory = λ index. ok [];
}

abbrev one_vfs : Vfs
one_vfs = record { root_fs = some one_file }

file_read : quick_read_all_data (λ n. true) one_vfs symbol_file ≡ ok (some (texts two_lines))
unfolding quick_read_all_data
file_read = refl

load_debug_symbols_lem_example :
    load_debug_symbols (λ n. true) one_vfs []
    ≡ ok (
        record { name = 0x61 ∷ 0x20 ∷ 0x62 ∷ 0 ∷ []; offset = 31 }
        ∷ record { name = 0x63 ∷ 0 ∷ []; offset = 32 }
        ∷ [])
unfolding symbol_of value_from
load_debug_symbols_lem_example =
    load_debug_symbols_lem (λ n. true) one_vfs two_lines file_read two_lines-Lines

abbrev first_symbol : SymbolEntry
first_symbol = record { name = 0x61 ∷ []; offset = 16 }

abbrev second_symbol : SymbolEntry
second_symbol = record { name = 0x62 ∷ []; offset = 32 }

abbrev third_symbol : SymbolEntry
third_symbol = record { name = 0x63 ∷ []; offset = 64 }

function_name_from_pc_lem_example :
    function_name_from_pc (first_symbol ∷ second_symbol ∷ third_symbol ∷ []) 40 ≡ symbol (0x62 ∷ [])
function_name_from_pc_lem_example =
    function_name_from_pc_lem 40 (first_symbol ∷ []) second_symbol (third_symbol ∷ [])
      (before (omega arith) none_before) (omega arith) (behind (omega arith))
