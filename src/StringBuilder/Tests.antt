-- ===== src/StringBuilder/Tests.antt =====
-- Builders of src/utils/string_builder.hpp on concrete texts.
use astral_runtime.Base.{ℕ, ◌≡◌, refl, arith, false, Option, none, some, List, [], ◌∷◌}
use astral_runtime.Spsc.{memcpy}
use astral_runtime.Spsc.Cells.{tabulate}
use astral_runtime.StringBuilder.{
  StringBuilder, StringOverflowPolicy, put, new, bytes_of, copy_append, doubled, moved, grow_for,
  cut, overflow, append, digits, magnitude, signed_text, append_signed, freeze,
}
use astral_runtime.StringBuilder.Appended.{IsAppended, append-IsAppended}
use astral_runtime.StringBuilder.Copied.{new-IsValid}
use astral_runtime.StringBuilder.Signed.{read_signed, append_signed-decimal}

abbrev storage : ℕ → ℕ
storage i = 7

abbrev four : StringBuilder
four = new 4 storage

abbrev no_memory : ℕ → Option (ℕ → ℕ)
no_memory n = none

abbrev memory : ℕ → Option (ℕ → ℕ)
memory n = some (λ i. n)

abbrev word : List ℕ
word = 97 ∷ 98 ∷ 99 ∷ 100 ∷ 101 ∷ []

truncates :
    freeze (append StringOverflowPolicy.truncate no_memory four word).1 ≡ 97 ∷ 98 ∷ 99 ∷ 100 ∷ []
unfolding append overflow cut copy_append put memcpy bytes_of new freeze tabulate
truncates = refl

spills : freeze (append StringOverflowPolicy.spill memory four word).1 ≡ word
unfolding append overflow grow_for doubled moved copy_append put memcpy bytes_of new freeze tabulate
spills = refl

capacity_doubles : (append StringOverflowPolicy.spill memory four word).1.capacity ≡ 8
unfolding append overflow grow_for doubled moved copy_append put memcpy bytes_of new
capacity_doubles = refl

least :
    signed_text false 0x8000_0000 ≡ some (45 ∷ 50 ∷ 49 ∷ 52 ∷ 55 ∷ 52 ∷ 56 ∷ 51 ∷ 54 ∷ 52 ∷ 56 ∷ [])
unfolding signed_text magnitude digits
least = refl

append-IsAppended_example :
    IsAppended StringOverflowPolicy.spill memory four word
      (append StringOverflowPolicy.spill memory four word).0
      (append StringOverflowPolicy.spill memory four word).1
append-IsAppended_example =
    append-IsAppended StringOverflowPolicy.spill memory four word
      (new-IsValid 4 storage (omega arith) (omega arith))

append_signed-decimal_example :
    (text : List ℕ) × (append_signed StringOverflowPolicy.spill memory four false 0x8000_0000
      ≡ some (append StringOverflowPolicy.spill memory four text))
    × (read_signed false text ≡ some 0x8000_0000)
append_signed-decimal_example =
    append_signed-decimal StringOverflowPolicy.spill memory four false 0x8000_0000 (omega arith)
