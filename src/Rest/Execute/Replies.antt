-- ===== src/Rest/Execute/Replies.antt =====
-- The numbers that `execute` reads from the headers of an answer.
use mathlib.Core.Option.{none-ne-some}
use aegis_cpp.Common.{
  ℕ, ◌^◌, ◌<◌, ◌≡◌, ◌⊎◌, refl, sym, ap, ◌∙◌, not, [], ◌∷◌, none, some, inl, inr, arith,
}
use aegis_cpp.Common.Int.{ℤ, pos, ◌-ℤ◌, to_signed}
use aegis_cpp.Common.Text.{Text, bytes, stoul, skip_spaces, to_text, is_empty_text}
use aegis_cpp.Common.Text.Numbers.{stoul-to_text}
use aegis_cpp.Rest.Execute.{Response, Limits, no_limits, read_header, read_limits}

-- A header that is missing, for 0, or the digits of a number.
abbrev pub IsHeader : Text → ℕ → Type 0
IsHeader t n = ((t ≡ []) × (n ≡ 0)) ⊎ (t ≡ to_text (pos n))

stoul_empty : stoul [] ≡ none
unfolding stoul skip_spaces
stoul_empty = refl

stoul-header : (n : ℕ) → n < 2 ^ 63 → stoul (to_text (pos n)) ≡ some n
stoul-header n h = stoul-to_text (pos n) ∙ ground (arith, h)

signed_32 : (n : ℕ) → n < 2 ^ 31 → to_signed 32 n ≡ pos n
signed_32 n h = ground (arith, h)

signed_64 : (n : ℕ) → n < 2 ^ 63 → to_signed 64 n ≡ pos n
signed_64 n h = ground (arith, h)

-- The value is stored and reading goes on.
read_header-IsHeader :
    (w n : ℕ) (t : Text) (store : ℤ → Limits → Limits) (next : Limits → Limits) (l : Limits)
    → IsHeader t n
    → n < 2 ^ 63
    → to_signed w n ≡ pos n
    → store (pos 0) l ≡ l
    → read_header w t store next l ≡ next (store (pos n) l)
read_header-IsHeader w n t store next l (inl (e, z)) h fits same = rw (e, z) (ap next (sym same))
read_header-IsHeader w n t store next l (inr e) h fits same =
    by_text t (ap stoul e ∙ stoul-header n h)
  where
    by_text :
        (t' : Text) → stoul t' ≡ some n → read_header w t' store next l ≡ next (store (pos n) l)
    by_text [] k = absurd (none-ne-some n (sym stoul_empty ∙ k))
    by_text (c ∷ s) k = rw (k, fits) refl

-- If each of the four headers is missing or has the digits of a number that its type holds, then each number is
-- in its own field, 0 for a missing one, and the date and the flag are those of their headers.
pub read_limits-headers :
    (from_http_date : Text → ℤ) (tz_bias : ℤ) (r : Response) (limit remaining reset retry : ℕ)
    → IsHeader (r.header (bytes "X-RateLimit-Limit")) limit
    → IsHeader (r.header (bytes "X-RateLimit-Remaining")) remaining
    → IsHeader (r.header (bytes "X-RateLimit-Reset")) reset
    → IsHeader (r.header (bytes "Retry-After")) retry
    → limit < 2 ^ 31
    → remaining < 2 ^ 31
    → reset < 2 ^ 63
    → retry < 2 ^ 31
    → read_limits from_http_date tz_bias r ≡ record {
      global = not (is_empty_text (r.header (bytes "X-RateLimit-Global")));
      limit = pos limit;
      remaining = pos remaining;
      reset = pos reset;
      retry = pos retry;
      date = from_http_date (r.header (bytes "Date")) -ℤ tz_bias;
    }
unfolding read_limits
read_limits-headers from_http_date tz_bias r limit remaining reset retry a b c d la lb lc ld =
    read_header-IsHeader 32 limit _ _ _ no_limits a (wide limit la) (signed_32 limit la) refl
    ∙ read_header-IsHeader 32 remaining _ _ _ _ b (wide remaining lb) (signed_32 remaining lb) refl
    ∙ read_header-IsHeader 64 reset _ _ _ _ c lc (signed_64 reset lc) refl
    ∙ read_header-IsHeader 32 retry _ _ _ _ d (wide retry ld) (signed_32 retry ld) refl
  where
    wide : (n : ℕ) → n < 2 ^ 31 → n < 2 ^ 63
    wide n h = omega (arith, h)
