-- ===== src/Sorter/File.antt =====
-- 1/main.c: `sort_file`, the code of one coroutine.
--
-- The numbers that `fscanf` reads from the file are a list, as are the ones that `fprintf` writes to it.
pub mod Done
use sysproghw.Base.{
  ◌==◌, ◌&&◌, ◌^◌, leb, Bool, if◌then◌else◌, ℕ, zero, suc, ◌+◌, List, [], ◌∷◌, get_elem?,
}
use sysproghw.Base.Int.{ℤ}
use sysproghw.Base.Buffer.{Buffer, insert_buffer}
use sysproghw.Sorter.Code.{fault, Code, ret, swaps, stamps, ◌>>=◌, deref}
use sysproghw.Sorter.Quick.{quick_sort}

-- `2 * buf->len` of `double_buffer`, which `insert_buffer` calls where the buffer is full, overflows its
-- `int`.
unfoldable pub overflows : Buffer ℤ → Bool
overflows buf = buf.pos == buf.len && leb (2 ^ 30) buf.len

-- `while(fscanf(…) == 1)`
unfoldable pub read_numbers : ℤ → Buffer ℤ → List ℤ → Code (Buffer ℤ)
read_numbers junk buf [] = ret buf
read_numbers junk buf (c ∷ cs) =
    let rest = read_numbers junk (insert_buffer junk buf c) cs in
    if overflows buf then fault else swaps rest

-- `for(i = 0; i < data[n].buf->pos; i++)`, on the rounds left.
unfoldable pub print_numbers : ℕ → ℕ → List ℤ → Code (List ℤ)
print_numbers zero i array = ret []
print_numbers (suc k) i array = do
  x ← deref (get_elem? array i)
  rest ← swaps (print_numbers k (i + 1) array)
  ret (x ∷ rest)

-- Up to `terminate`: the buffer, and what the file holds from its start on. So many calls of `quick_sort`
-- inside one another, `frames`, have room on the coroutine's stack of STACK_SIZE bytes.
unfoldable pub sort_file : (frames : ℕ) → ℤ → Buffer ℤ → List ℤ → Code (Buffer ℤ × List ℤ)
sort_file frames junk empty numbers = do
  buf ← stamps (read_numbers junk empty numbers)
  array ← swaps (quick_sort frames buf.array 0 buf.pos)
  out ← swaps (swaps (print_numbers buf.pos 0 array))
  swaps (ret (record buf { array = array }, out))
