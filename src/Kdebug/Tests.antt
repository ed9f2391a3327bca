-- ===== src/Kdebug/Tests.antt =====
-- kernel/kdebug.c run on inputs, and its theorems at inputs.
use osdev_course.Common.{
  ℕ, ◌+◌, ◌<◌, ◌≡◌, refl, ◌⊎◌, inr, true, List, [], ◌∷◌, ◌++◌, arith, length, update, Run, ok,
}
use osdev_course.Kstring.{Memory}
use osdev_course.Kstring.Text.{IsString}
use osdev_course.Kdebug.{hextoasc32, kdebug}
use osdev_course.Kdebug.Hex.{value, hextoasc32-value}
use osdev_course.Kdebug.Output.{expand, sent, IsReadyLine, kdebug-hex}

-- A line that keeps what it is sent and is always ready.
abbrev inb : ℕ → List ℕ → ℕ × List ℕ
inb port s = (0x20, s)

abbrev outb : ℕ → ℕ → List ℕ → List ℕ
outb port c s = s ++ c ∷ []

line : IsReadyLine inb
line = record { ready = λ s. refl; same = λ s. refl }

-- "a%Xb" at 100, "a\n" at 200 and "%" at 300.
abbrev formats : Memory
formats =
    update
      (update
        (update (update (update (update (update (λ _. 0) 100 97) 101 37) 102 88) 103 98) 200 97) 201
        10)
      300 37

hex_format : IsString formats 100 (97 ∷ 37 ∷ 88 ∷ 98 ∷ [])
hex_format = (
  refl,
  omega arith,
  omega arith,
  (
    refl,
    omega arith,
    omega arith,
    (refl, omega arith, omega arith, (refl, omega arith, omega arith, refl)),
  ),
)

plain_format : IsString formats 200 (97 ∷ 10 ∷ [])
plain_format = (refl, omega arith, omega arith, (refl, omega arith, omega arith, refl))

printed : Run (List ℕ × Memory × List ℕ) → List ℕ
printed (ok (va, mem, s)) = s
printed _ = []

-- 0x1F in upper case is 0000001F.
hex_printed :
    printed (kdebug inb outb 20 500 100 (0x1F ∷ [], formats, []))
    ≡ 97 ∷ 48 ∷ 48 ∷ 48 ∷ 48 ∷ 48 ∷ 48 ∷ 49 ∷ 70 ∷ 98 ∷ []
unfolding kdebug printed
hex_printed = refl

hextoasc32-value_example :
    (cs : List ℕ) × (length cs ≡ 8)
    × IsString (hextoasc32 0x1F 500 true formats) 500 cs
    × (value 0 cs ≡ 0x1F)
    × ((z : ℕ) → (z < 500) ⊎ (500 + 8 < z) → hextoasc32 0x1F 500 true formats z ≡ formats z)
hextoasc32-value_example = hextoasc32-value 0x1F 500 true formats (omega arith)

kdebug-hex_example :
    (xs : List ℕ) × (mem' : Memory) × (kdebug inb outb 20 500 100 (0x1F ∷ [], formats, [])
      ≡ ok ([], mem', sent outb (expand (97 ∷ []) ++ (xs ++ expand (98 ∷ []))) []))
    × (length xs ≡ 8)
    × (value 0 xs ≡ 0x1F)
kdebug-hex_example =
    kdebug-hex inb outb line 20 500 100 0x1F [] formats (97 ∷ []) (98 ∷ []) [] (omega arith)
      (omega arith) hex_format refl refl (inr (omega arith))
