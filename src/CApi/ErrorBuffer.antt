-- ===== src/CApi/ErrorBuffer.antt =====
-- src/c_api.zig, the thread-local buffer that holds the last error's name, and the two functions
-- that return C strings made in it. An error is its name, a list of bytes.
pub mod Laws
use zwasm.Base.{
  ℕ, zero, suc, ◌-◌, ◌≤◌, ◌≡◌, min, Option, none, some, List, [], ◌∷◌, ltb, leb, ◌==◌,
  if◌then◌else◌, length, get_elem?, set, take,
}
use zwasm.Base.Slices.{splice}

abbrev pub error_buf_size : ℕ
error_buf_size = 512

pub record ErrorBuffer : Type 0 where
  pub buf : List ℕ
  pub len : ℕ

pub record IsValid (e : ErrorBuffer) : Type 0 where
  pub full_size : length e.buf ≡ 512
  pub len_fits : e.len ≤ 512

unfoldable pub set_error : List ℕ → ErrorBuffer → ErrorBuffer
set_error msg e =
    let len = min (length msg) error_buf_size in
    record { buf = splice e.buf 0 (take len msg); len = len }

unfoldable pub clear_error : ErrorBuffer → ErrorBuffer
clear_error e = record e { len = 0 }

-- What a C caller reads at the start of a buffer: the bytes before the first zero.
abbrev pub c_string : List ℕ → List ℕ
c_string [] = []
c_string (zero ∷ bs) = []
c_string (suc b ∷ bs) = suc b ∷ c_string bs

-- `zwasm_last_error_message`: the string that the returned pointer shows, and the buffer.
unfoldable pub last_error_message : ErrorBuffer → List ℕ × ErrorBuffer
last_error_message e =
    if e.len == 0
    then ([], e)
    else let last = if ltb e.len error_buf_size then e.len else error_buf_size - 1 in
      let buf = set e.buf last 0 in (c_string buf, record e { buf = buf })

-- `zwasm_module_export_name` on the names of the exported functions; the buffer is its scratch.
unfoldable pub export_name : List (List ℕ) → ℕ → ErrorBuffer → Option (List ℕ) × ErrorBuffer
export_name names idx e = elim (get_elem? names idx) [
  | none ↦ (none, e)
  | some name ↦
      if leb error_buf_size (length name)
      then (none, e)
      else let buf = set (splice e.buf 0 name) (length name) 0 in
        (some (c_string buf), record e { buf = buf })
]
