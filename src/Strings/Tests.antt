-- ===== src/Strings/Tests.antt =====
-- Runs of the model of string.c on a memory that holds "AB" at 100 and "ABA" at 200.
use archa_os.Base.{◌≡◌, refl, arith, ◌==◌, if◌then◌else◌, ◌||◌}
use archa_os.Strings.{Memory, memmove, strcmp}
use archa_os.Strings.Ranges.{moved, memmove-moved}
use archa_os.Strings.Search.{IsString}
use archa_os.Strings.Compare.{Compared, strcmp-Compared}

abbrev bytes : Memory
bytes a =
    if (a == 100) || (a == 200) || (a == 202)
    then 65
    else if (a == 101) || (a == 201)
    then 66
    else 0

two-IsString : IsString bytes 100 2
two-IsString = record { inside = λ i lt. ground arith; finish = refl }

three-IsString : IsString bytes 200 3
three-IsString = record { inside = λ i lt. ground arith; finish = refl }

memmove-moved_example : memmove 201 200 3 bytes ≡ (201, moved bytes 201 200 3)
memmove-moved_example = memmove-moved bytes 201 200 3

strcmp-Compared_example : Compared bytes 100 200 2 3 (strcmp 10 100 200 bytes)
strcmp-Compared_example =
    strcmp-Compared 10 100 200 2 3 bytes two-IsString three-IsString (omega arith)
