-- ===== src/TripleBuffer/Examples.antt =====
-- The theorems of the triple buffer after a write and a read, and the tests of its calls.
use launch_core.Prelude.{ℕ, ◌≡◌, refl, some, none}
use launch_core.TripleBuffer.{initial, read, write}
use launch_core.TripleBuffer.Roles.{Reach, start, next, reads, writes, IsValid, roles-IsValid}

-- A write, a read and a write: the second write takes buffer 2 and returns index 1.
abbrev after_write : ℕ
after_write = 82

abbrev after_read : ℕ
after_read = 24

first_write : write initial ≡ (1, after_write)
unfolding write
first_write = refl

first_read : read after_write ≡ (some 0, after_read)
unfolding read
first_read = refl

no_news : read initial ≡ (none, initial)
unfolding read
no_news = refl

second_write : (write after_read).0 ≡ 1
unfolding write
second_write = refl

after_read-Reach : Reach after_read
unfolding read write
after_read-Reach = next (next start (writes initial)) (reads after_write)

roles-IsValid_example : IsValid after_read
roles-IsValid_example = roles-IsValid after_read after_read-Reach

after_write-Reach : Reach after_write
unfolding write
after_write-Reach = next start (writes initial)
