-- ===== src/CApi/WasiConfig.antt =====
-- src/c_api.zig, `zwasm_wasi_config_t`: parallel lists that the setters fill, and the options that
-- the loaders build from them. A pointer with a length is kept as the bytes behind the pointer and,
-- in another list, the length.
pub mod Laws
use zwasm.Base.{
  ℕ, zero, suc, ◌+◌, ◌-◌, ◌*◌, ◌^◌, ◌≡◌, Bool, true, false, ◌||◌, Option, none, some, List, [], ◌∷◌,
  ◌++◌, map, ltb, leb, ◌==◌, if◌then◌else◌, length, get_or, set, take,
}
use zwasm.Base.Options.{◌>>=◌}
use zwasm.CApi.Header.{
  Bytes, WasiConfigCall, wasi_config_delete, wasi_config_set_argv, wasi_config_set_env,
  wasi_config_preopen_dir, wasi_config_preopen_fd, wasi_config_set_stdio_fd,
}
use zwasm.CApi.Engine.{PreopenKind, file, dir, Ownership, borrow, own, PreopenFd, WasiOptions}

-- An isize is its 64-bit pattern, so -1 is 2 ^ 64 - 1.
pub record WasiConfig : Type 0 where
  pub argv : List Bytes
  pub env_keys : List Bytes
  pub env_vals : List Bytes
  pub env_key_lens : List ℕ
  pub env_val_lens : List ℕ
  pub preopen_host : List Bytes
  pub preopen_guest : List Bytes
  pub preopen_host_lens : List ℕ
  pub preopen_guest_lens : List ℕ
  pub preopen_fd_hosts : List ℕ
  pub preopen_fd_guests : List Bytes
  pub preopen_fd_guest_lens : List ℕ
  pub preopen_fd_kinds : List ℕ
  pub preopen_fd_ownerships : List ℕ
  pub stdio_fds : List ℕ
  pub stdio_ownerships : List ℕ

abbrev pub not_set : ℕ
not_set = 2 ^ 64 - 1

-- `config.* = .{}` in `zwasm_wasi_config_new`.
abbrev pub new : WasiConfig
new = record {
  argv = [];
  env_keys = [];
  env_vals = [];
  env_key_lens = [];
  env_val_lens = [];
  preopen_host = [];
  preopen_guest = [];
  preopen_host_lens = [];
  preopen_guest_lens = [];
  preopen_fd_hosts = [];
  preopen_fd_guests = [];
  preopen_fd_guest_lens = [];
  preopen_fd_kinds = [];
  preopen_fd_ownerships = [];
  stdio_fds = not_set ∷ not_set ∷ not_set ∷ [];
  stdio_ownerships = 0 ∷ 0 ∷ 0 ∷ [];
}

-- `list.append(page_alloc, x) catch {}`: without room nothing is appended, and nobody is told.
abbrev pub append {ℓ} : {A : Type ℓ} → Bool → List A → A → List A
append true xs x = xs ++ x ∷ []
append false xs x = xs

-- The allocator's answers within one call, by the number of the append.
abbrev pub Room : Type 0
Room = ℕ → Bool

unfoldable pub set_argv : Room → ℕ → List Bytes → WasiConfig → WasiConfig
set_argv room i [] c = c
set_argv room i (a ∷ as') c =
    set_argv room (i + 1) as' (record c { argv = append (room i) c.argv a })

-- One round of the loop of `set_env`; `i` counts the appends.
abbrev pub set_var : Room → ℕ → Bytes × Bytes → WasiConfig → WasiConfig
set_var room i (key, val) c = record c {
  env_keys = append (room i) c.env_keys key;
  env_vals = append (room (i + 1)) c.env_vals val;
  env_key_lens = append (room (i + 2)) c.env_key_lens (length key);
  env_val_lens = append (room (i + 3)) c.env_val_lens (length val);
}

unfoldable pub set_env : Room → ℕ → List (Bytes × Bytes) → WasiConfig → WasiConfig
set_env room i [] c = c
set_env room i (v ∷ vs) c = set_env room (i + 4) vs (set_var room i v c)

-- The `zwasm_wasi_config_*` functions; after `wasi_config_delete` the object is gone.
unfoldable pub call : Room → WasiConfigCall → WasiConfig → WasiConfig
call room wasi_config_delete c = c
call room (wasi_config_set_argv argv) c = set_argv room 0 argv (record c { argv = [] })
call room (wasi_config_set_env vars) c =
    set_env room 0 vars
      (record c { env_keys = []; env_vals = []; env_key_lens = []; env_val_lens = [] })
call room (wasi_config_preopen_dir host guest) c = record c {
  preopen_host = append (room 0) c.preopen_host host;
  preopen_host_lens = append (room 1) c.preopen_host_lens (length host);
  preopen_guest = append (room 2) c.preopen_guest guest;
  preopen_guest_lens = append (room 3) c.preopen_guest_lens (length guest);
}
call room (wasi_config_preopen_fd host_fd guest kind ownership) c = record c {
  preopen_fd_hosts = append (room 0) c.preopen_fd_hosts host_fd;
  preopen_fd_guests = append (room 1) c.preopen_fd_guests guest;
  preopen_fd_guest_lens = append (room 2) c.preopen_fd_guest_lens (length guest);
  preopen_fd_kinds = append (room 3) c.preopen_fd_kinds kind;
  preopen_fd_ownerships = append (room 4) c.preopen_fd_ownerships ownership;
}
call room (wasi_config_set_stdio_fd wasi_fd host_fd ownership) c =
    if ltb wasi_fd 3
    then record c {
      stdio_fds = set c.stdio_fds wasi_fd host_fd;
      stdio_ownerships = set c.stdio_ownerships wasi_fd ownership;
    }
    else c

-- `isizeToHandle` where a handle is an i32: `none` is the panic of its cast.
unfoldable pub isize_to_handle : ℕ → Option ℕ
isize_to_handle v = if ltb v (2 ^ 31) || leb (2 ^ 64 - 2 ^ 31) v then some v else none

-- `for (ptrs, lens, 0..) |ptr, l, i| slices[i] = ptr[0..l]`: lists of unequal length are a panic.
unfoldable pub slices : List Bytes → List ℕ → Option (List Bytes)
slices [] [] = some []
slices (p ∷ ps) (l ∷ ls) = do r ← slices ps ls; some (take l p ∷ r)
slices _ _ = none

abbrev pub kind_of : ℕ → PreopenKind
kind_of n = if n == 1 then dir else file

abbrev pub ownership_of : ℕ → Ownership
ownership_of n = if n == 1 then own else borrow

-- The loop over the file descriptors that are opened in advance, by index over all five lists.
unfoldable pub preopen_fds :
    List ℕ → List Bytes → List ℕ → List ℕ → List ℕ → Option (List PreopenFd)
preopen_fds [] gs ls ks os = some []
preopen_fds (h ∷ hs) (g ∷ gs) (l ∷ ls) (k ∷ ks) (o ∷ os) = do
  handle ← isize_to_handle h
  r ← preopen_fds hs gs ls ks os
  let fd : PreopenFd = record {
    host_fd = handle;
    guest_path = take l g;
    kind = kind_of k;
    ownership = ownership_of o;
  }
  some (fd ∷ r)
preopen_fds _ _ _ _ _ = none

-- One of the three stdio overrides: the handle if it is set to what is not negative, and the owner.
unfoldable pub stdio_override : ℕ → ℕ → Option (Option ℕ × Ownership)
stdio_override fd owner =
    if ltb fd (2 ^ 63)
    then (isize_to_handle fd >>= λ h. some (some h, ownership_of owner))
    else some (none, borrow)

-- Reading an array of pointers as an array of slices, which are twice as large: the second half of
-- the slices lies behind the array's end.
abbrev pub reinterpret_argv : List Bytes → Option (List Bytes)
reinterpret_argv [] = some []
reinterpret_argv (a ∷ as') = none

-- The options that `zwasm_module_new_wasi_configured` builds; `none` is a panic.
unfoldable pub to_options : WasiConfig → Option WasiOptions
to_options c = do
  keys ← slices c.env_keys c.env_key_lens
  vals ← slices c.env_vals c.env_val_lens
  paths ← slices c.preopen_host c.preopen_host_lens
  fds ←
      preopen_fds c.preopen_fd_hosts c.preopen_fd_guests c.preopen_fd_guest_lens c.preopen_fd_kinds
        c.preopen_fd_ownerships
  stdin ← stdio_override (get_or c.stdio_fds 0 0) (get_or c.stdio_ownerships 0 0)
  stdout ← stdio_override (get_or c.stdio_fds 1 0) (get_or c.stdio_ownerships 1 0)
  stderr ← stdio_override (get_or c.stdio_fds 2 0) (get_or c.stdio_ownerships 2 0)
  some (record {
    args = reinterpret_argv c.argv;
    env_keys = keys;
    env_vals = vals;
    preopen_paths = paths;
    preopen_fds = fds;
    stdio_fds = stdin.0 ∷ stdout.0 ∷ stderr.0 ∷ [];
    stdio_ownership = stdin.1 ∷ stdout.1 ∷ stderr.1 ∷ [];
  })
