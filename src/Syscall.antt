-- ===== src/Syscall.antt =====
-- kernel/src/syscall/mod.rs with the numbers of abi/syscall.rs: the table of calls, the checks of
-- user buffers, and the scan of `waitpid`.
pub mod Waitpid
pub mod Exec
pub mod Replace
pub mod Fork
pub mod Calls
mod Tests
use alexos.Base.{
  ℕ, zero, suc, ◌+◌, ◌*◌, Bool, true, false, not, ◌&&◌, ◌||◌, Option, none, some, List, [], ◌∷◌,
  ltb, leb, ◌==◌, if◌then◌else◌,
}
use alexos.Base.Words.{word_mod}
use alexos.Mm.Addr.{user_max_addr}
use alexos.Task.{TaskState, zombie, TaskInner}
use alexos.Task.Process.{Isize, up, down}

abbrev pub max_io : ℕ
max_io = 64 * 1024

-- The error codes, `EINVAL` -1 to `ENOSYS` -7.
pub data Errno : Type 0 where
  einval enoent ebadf enomem echild efault enosys : Errno

unfoldable pub errno_value : Errno → Isize
errno_value einval = down 0
errno_value enoent = down 1
errno_value ebadf = down 2
errno_value enomem = down 3
errno_value echild = down 4
errno_value efault = down 5
errno_value enosys = down 6

-- The calls, with the arguments that each of them reads.
pub data Call : Type 0 where
  exit : ℕ → Call
  write read : ℕ → ℕ → ℕ → Call
  yield getpid getppid fork uptime ps : Call
  exec : ℕ → ℕ → Call
  waitpid : ℕ → ℕ → Call
  sbrk : ℕ → Call
  unknown : ℕ → Call

-- The `match` of `dispatch`, on the number and the first three arguments.
unfoldable pub select : ℕ → ℕ → ℕ → ℕ → Call
select id a b c =
    if id == 0
    then exit a
    else if id == 1
    then write a b c
    else if id == 2
    then read a b c
    else if id == 3
    then yield
    else if id == 4
    then getpid
    else if id == 5
    then getppid
    else if id == 6
    then fork
    else if id == 7
    then exec a b
    else if id == 8
    then waitpid a b
    else if id == 9
    then sbrk a
    else if id == 10
    then uptime
    else if id == 11
    then ps
    else unknown id

-- `len > MAX_IO || ptr.checked_add(len) > USER_MAX_ADDR`, as `read_user_buf` and `sys_read` test it.
unfoldable pub bad_range : ℕ → ℕ → Bool
bad_range ptr len = ltb max_io len || leb word_mod (ptr + len) || ltb user_max_addr (ptr + len)

-- A result of a call: a number, or an error.
pub data Reply : Type 0 where
  value : ℕ → Reply
  error : Errno → Reply

-- `read_user_buf`; `copy` is `copy_from_user` of the caller's space, `none` where it has no space.
unfoldable pub read_user_buf : Option (ℕ → ℕ → Option (List ℕ)) → ℕ → ℕ → Option (List ℕ)
unfolding bad_range
read_user_buf none ptr len = none
read_user_buf (some copy) ptr len = if bad_range ptr len then none else copy ptr len

-- `sys_write`: the reply, and the bytes that go to the serial port.
unfoldable pub sys_write : Option (ℕ → ℕ → Option (List ℕ)) → ℕ → ℕ → ℕ → Reply × List ℕ
unfolding read_user_buf
sys_write space fd ptr len =
    if not (fd == 1) && not (fd == 2)
    then (error ebadf, [])
    else elim (read_user_buf space ptr len) [
      | none ↦ (error efault, [])
      | some buf ↦ (value len, buf)
    ]

-- A child as `waitpid` sees it.
pub record Child : Type 0 where
  pub pid : ℕ
  pub state : TaskState
  pub exit_code : ℕ

abbrev pub is_zombie : TaskState → Bool
is_zombie zombie = true
is_zombie _ = false

-- `want < 0 || child.pid == want`
unfoldable pub matches : Isize → ℕ → Bool
matches (down n) pid = true
matches (up n) pid = pid == n

-- The first zombie that matches, with the other children in their order.
unfoldable pub find_zombie : Isize → List Child → Option (Child × List Child)
unfolding matches
find_zombie want [] = none
find_zombie want (c ∷ cs) =
    let rest = find_zombie want cs in
    if matches want c.pid && is_zombie c.state
    then some (c, cs)
    else elim rest [ none ↦ none | some (z, others) ↦ some (z, c ∷ others) ]

-- Whether any child could ever satisfy the request.
unfoldable pub any_child : Isize → List Child → Bool
unfolding matches
any_child want [] = false
any_child want (c ∷ cs) = matches want c.pid || any_child want cs

-- What one round of `sys_waitpid` comes to.
pub data Waited : Type 0 where
  reaped : Child → List Child → Waited
  no_child : Waited
  sleeps : Waited

unfoldable pub waitpid_round : Isize → List Child → Waited
unfolding find_zombie any_child
waitpid_round want cs = elim (find_zombie want cs) [
  | some (z, others) ↦ reaped z others
  | none ↦ if any_child want cs then sleeps else no_child
]
