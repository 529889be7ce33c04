-- ===== src/Devices/Trace/Tests.antt =====
-- The symbols of a small file.
use uefi_bare_bones.Prelude.{ℕ, ◌+◌, ◌≡◌, refl, false, List, [], ◌∷◌, none, some}
use uefi_bare_bones.Libc.Str.{Bytes, strncmp}
use uefi_bare_bones.Devices.Trace.{
  Symbol, Section, Trace, strtab_name, load_sections, name_of, question_marks,
  resolve_function_name,
}
use uefi_bare_bones.Devices.Trace.Best.{Nearest, resolve_function_name-Nearest}

abbrev start : Symbol
start = record { st_name = 1; st_info = 2; st_value = 100 }

abbrev symbols : List Symbol
symbols =
    record { st_name = 2; st_info = 18; st_value = 300 }
    ∷ record { st_name = 3; st_info = 18; st_value = 200 }
    ∷ record { st_name = 4; st_info = 17; st_value = 240 }
    ∷ []

abbrev texts : ℕ → Bytes
texts at i = at + i

abbrev sections : List Section
sections =
    record { sh_type = 2; name = λ i. 0; symbols = start ∷ symbols; texts = λ at i. 0 }
    ∷ record { sh_type = 3; name = strtab_name; symbols = []; texts = texts }
    ∷ []

abbrev no_file : Trace
no_file = record { has_header = false; symtab = none; strtab = none }

texts_loaded : (load_sections sections no_file).strtab ≡ some texts
unfolding load_sections strncmp
texts_loaded = refl

symbols_loaded : (load_sections sections no_file).symtab ≡ some (start ∷ symbols)
unfolding load_sections strncmp
symbols_loaded = refl

resolve_function_name-Nearest_example :
    (s : Symbol) × ((resolve_function_name sections no_file 250).0 ≡ name_of texts s)
    × Nearest 250 start (start ∷ symbols) s
resolve_function_name-Nearest_example =
    resolve_function_name-Nearest sections no_file 250 texts start symbols texts_loaded
      symbols_loaded

-- With no texts there is no name.
no_texts : (resolve_function_name [] no_file 250).0 ≡ question_marks
unfolding resolve_function_name load_sections
no_texts = refl
