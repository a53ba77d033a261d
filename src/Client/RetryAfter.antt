-- ===== src/Client/RetryAfter.antt =====
-- internal/client/client.go, HTTPError and parseRetryAfter. A time.Duration is an int64 of nanoseconds, here
-- the number of its bits.
use Prim.Native.Char.{code}
use mantlerd.Base.{
  ℕ, ◌+◌, ◌-◌, ◌*◌, ◌%◌, ◌^◌, ◌≤◌, ◌≡◌, Bool, true, false, ◌&&◌, ◌||◌, String, Option, none, some,
  ltb, ◌==◌, min, if-holds, arith, str_eq, trim_space, if◌then◌else◌,
}

abbrev pub second : ℕ
second = 1000000000

abbrev pub max_retry_after : ℕ
max_retry_after = 300 * second

-- `d > 0`
abbrev pub is_positive : ℕ → Bool
is_positive d = ltb 0 d && ltb d (2 ^ 63)

abbrev pub capped : ℕ → ℕ
capped d = if is_positive d && ltb max_retry_after d then max_retry_after else d

pub record HttpError : Type 0 where
  pub status_code : ℕ
  pub retry_after : ℕ
  pub body : String

-- isASCIIInteger, at a text that is not empty.
unfoldable pub are_digits : String → Bool
are_digits String.[] = true
are_digits (String.◌∷◌ c s) = if ltb (code c) 48 || ltb 57 (code c) then false else are_digits s

unfoldable pub is_ascii_integer : String → Bool
is_ascii_integer s = if str_eq s "" then false else are_digits s

unfoldable pub decimal_after : ℕ → String → ℕ
decimal_after n String.[] = n
decimal_after n (String.◌∷◌ c s) = decimal_after (10 * n + (code c - 48)) s

-- strconv.Atoi, at decimal digits.
unfoldable pub atoi : String → Option ℕ
atoi s = let n = decimal_after 0 s in if ltb n (2 ^ 63) then some n else none

unfoldable pub delay_of : Option ℕ → ℕ
delay_of none = 0
delay_of (some seconds) = if seconds == 0 then 0 else capped ((seconds * second) % 2 ^ 64)

unfoldable pub delay_until : Option ℕ → ℕ
delay_until none = 0
delay_until (some until) = if is_positive until then capped until else 0

-- `until` is http.ParseTime followed by time.Until.
unfoldable pub parse_retry_after : (String → Option ℕ) → String → ℕ
parse_retry_after until value =
    let trimmed = trim_space value in
    if str_eq trimmed ""
    then 0
    else if is_ascii_integer trimmed
    then delay_of (atoi trimmed)
    else delay_until (until trimmed)

-- No more than five minutes, as an int64.
abbrev pub IsShort : ℕ → Type 0
IsShort d = is_positive d ≡ true → d ≤ max_retry_after

capped-IsShort : (d : ℕ) → IsShort (capped d)
capped-IsShort d h = ground arith

zero-IsShort : IsShort 0
zero-IsShort h = omega arith

delay_of-IsShort : (o : Option ℕ) → IsShort (delay_of o)
unfolding delay_of
delay_of-IsShort none = zero-IsShort
delay_of-IsShort (some n) =
    if-holds IsShort (n == 0) (λ e. zero-IsShort) (λ e. capped-IsShort ((n * second) % 2 ^ 64))

delay_until-IsShort : (o : Option ℕ) → IsShort (delay_until o)
unfolding delay_until
delay_until-IsShort none = zero-IsShort
delay_until-IsShort (some n) =
    if-holds IsShort (is_positive n) (λ e. capped-IsShort n) (λ e. zero-IsShort)

-- Whatever the header holds, the wait read from it is at most five minutes.
pub parse_retry_after-IsShort :
    (until : String → Option ℕ) (value : String) → IsShort (parse_retry_after until value)
unfolding parse_retry_after
parse_retry_after-IsShort until value =
    let trimmed = trim_space value in
    if-holds IsShort (str_eq trimmed "") (λ e. zero-IsShort)
      λ e.
        if-holds IsShort (is_ascii_integer trimmed) (λ f. delay_of-IsShort (atoi trimmed))
          (λ f. delay_until-IsShort (until trimmed))

-- A number of seconds that fits in an int64 of nanoseconds is the wait, up to five minutes.
pub delay_of_fitting :
    (n : ℕ) → n ≤ 9223372036 → delay_of (some n) ≡ min (n * second) max_retry_after
unfolding delay_of
delay_of_fitting n h = ground arith
