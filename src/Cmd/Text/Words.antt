-- ===== src/Cmd/Text/Words.antt =====
-- Words of plain bytes, between separators, are what Split and Fields find in a text.
use titan_distributed_kv.Common.{
  ℕ, ◌≡◌, ◌≢◌, refl, sym, ap, ◌∙◌, Bytes, List, [], ◌∷◌, ◌++◌, map, append_assoc, append-nil, true,
  false, arith, ltb, ◌==◌,
}
use titan_distributed_kv.Common.Spaces.{is_ascii_space, wide_spaces, space_width}
use titan_distributed_kv.Cmd.Text.{
  split, trim_left, trim_space, nonempty, fields_from, fields, join,
}
use mathlib.Core.List.{reverse, reverse-append, reverse-reverse}

-- An ASCII byte that is no white space.
abbrev pub IsPlain : ℕ → Type 0
IsPlain c = (ltb c 128 ≡ true) × (is_ascii_space c ≡ false)

abbrev pub AllPlain : Bytes → Type 0
AllPlain [] = Unit
AllPlain (c ∷ cs) = IsPlain c × AllPlain cs

-- A text of plain bytes that is not empty.
abbrev pub IsWord : Bytes → Type 0
IsWord [] = ⊥
IsWord (c ∷ cs) = IsPlain c × AllPlain cs

abbrev pub AllWords : List Bytes → Type 0
AllWords [] = Unit
AllWords (w ∷ ws) = IsWord w × AllWords ws

IsWord-AllPlain : (w : Bytes) → IsWord w → AllPlain w
IsWord-AllPlain [] h = absurd h
IsWord-AllPlain (c ∷ cs) h = h

space_width_plain :
    (wide : List Bytes) (c : ℕ) (cs : Bytes) → IsPlain c → space_width wide (c ∷ cs) ≡ 0
unfolding space_width
space_width_plain wide c cs (small, plain) = rw (small, plain) refl

-- A text that starts and ends with plain bytes.
pub record IsTrim (s : Bytes) : Type 0 where
  pub first : ℕ
  pub after : Bytes
  pub starts : s ≡ first ∷ after
  pub first_IsPlain : IsPlain first
  pub last : ℕ
  pub before : Bytes
  pub ends : reverse s ≡ last ∷ before
  pub last_IsPlain : IsPlain last

pub IsTrim-≢ : (s : Bytes) → IsTrim s → s ≢ []
IsTrim-≢ s t e = cc (t.starts, e)

trim_left_plain :
    (wide : List Bytes) (c : ℕ) (cs : Bytes) → IsPlain c → trim_left wide 0 (c ∷ cs) ≡ c ∷ cs
unfolding trim_left
trim_left_plain wide c cs h = rw (trim_left, space_width_plain wide c cs h) refl

pub trim_space-IsTrim : (s : Bytes) → IsTrim s → trim_space s ≡ s
unfolding trim_space
trim_space-IsTrim s t =
    ap (λ u. reverse (trim_left (map reverse wide_spaces) 0 (reverse (trim_left wide_spaces 0 u))))
      t.starts
    ∙ ap (λ u. reverse (trim_left (map reverse wide_spaces) 0 (reverse u)))
        (trim_left_plain wide_spaces t.first t.after t.first_IsPlain)
    ∙ ap (λ u. reverse (trim_left (map reverse wide_spaces) 0 u))
        (ap reverse (sym t.starts) ∙ t.ends)
    ∙ ap reverse (trim_left_plain (map reverse wide_spaces) t.last t.before t.last_IsPlain)
    ∙ ap reverse (sym t.ends)
    ∙ reverse-reverse s

IsTrim-starts : (c : ℕ) (u v : Bytes) → IsTrim (c ∷ u) → IsTrim v → IsTrim ((c ∷ u) ++ v)
IsTrim-starts c u v s t = record {
  first = s.first;
  after = s.after ++ v;
  starts = ap (λ x. x ++ v) s.starts;
  first_IsPlain = s.first_IsPlain;
  last = t.last;
  before = t.before ++ reverse (c ∷ u);
  ends = reverse-append (c ∷ u) v ∙ ap (λ x. x ++ reverse (c ∷ u)) t.ends;
  last_IsPlain = t.last_IsPlain;
}

byte-IsTrim : (c : ℕ) → IsPlain c → IsTrim (c ∷ [])
byte-IsTrim c h = record {
  first = c;
  after = [];
  starts = refl;
  first_IsPlain = h;
  last = c;
  before = [];
  ends = refl;
  last_IsPlain = h;
}

pub IsWord-IsTrim : (w : Bytes) → IsWord w → IsTrim w
IsWord-IsTrim [] h = absurd h
IsWord-IsTrim (c ∷ []) (h, _) = byte-IsTrim c h
IsWord-IsTrim (c ∷ d ∷ cs) (h, hs) =
    IsTrim-starts c [] (d ∷ cs) (byte-IsTrim c h) (IsWord-IsTrim (d ∷ cs) hs)

-- A text that starts with one that is trimmed and ends with another, with whatever stands between them.
pub IsTrim-around : (u s v : Bytes) → IsTrim u → IsTrim v → IsTrim (u ++ (s ++ v))
IsTrim-around u s v t t' = record {
  first = t.first;
  after = t.after ++ (s ++ v);
  starts = ap (λ x. x ++ (s ++ v)) t.starts;
  first_IsPlain = t.first_IsPlain;
  last = t'.last;
  before = t'.before ++ (reverse s ++ reverse u);
  ends =
      reverse-append u (s ++ v)
      ∙ ap (λ x. x ++ reverse u) (reverse-append s v ∙ ap (λ x. x ++ reverse s) t'.ends)
      ∙ append_assoc (t'.last ∷ t'.before) (reverse s) (reverse u);
  last_IsPlain = t'.last_IsPlain;
}

pub join-IsTrim :
    (w : Bytes) (ws : List Bytes) (sep : Bytes) → AllWords (w ∷ ws) → IsTrim (join (w ∷ ws) sep)
unfolding join
join-IsTrim w [] sep (h, _) = IsWord-IsTrim w h
join-IsTrim w (v ∷ ws) sep (h, hs) =
    IsTrim-around w sep (join (v ∷ ws) sep) (IsWord-IsTrim w h) (join-IsTrim v ws sep hs)

fields_from_byte :
    (w : Bytes) (c : ℕ) (cs : Bytes)
    → IsPlain c
    → fields_from 0 w (c ∷ cs) ≡ fields_from 0 (w ++ (c ∷ [])) cs
unfolding fields_from
fields_from_byte w c cs h = rw (fields_from, space_width_plain wide_spaces c cs h) refl

fields_from_plain :
    (w v rest : Bytes) → AllPlain v → fields_from 0 w (v ++ rest) ≡ fields_from 0 (w ++ v) rest
fields_from_plain w [] rest h = ap (λ u. fields_from 0 u rest) (sym (append-nil w))
fields_from_plain w (c ∷ cs) rest (h, hs) =
    fields_from_byte w c (cs ++ rest) h
    ∙ fields_from_plain (w ++ (c ∷ [])) cs rest hs
    ∙ ap (λ u. fields_from 0 u rest) (append_assoc w (c ∷ []) cs)

space_between : (w rest : Bytes) → fields_from 0 w (32 ∷ rest) ≡ nonempty w ++ fields_from 0 [] rest
unfolding fields_from space_width
space_between w rest = refl

nonempty-IsWord : (w : Bytes) → IsWord w → nonempty w ≡ w ∷ []
unfolding nonempty
nonempty-IsWord [] h = absurd h
nonempty-IsWord (c ∷ cs) h = refl

fields_from_nil : (w : Bytes) → IsWord w → fields_from 0 w [] ≡ w ∷ []
unfolding fields_from
fields_from_nil w h = nonempty-IsWord w h

-- Fields of words of plain ASCII bytes that a space each joins are the words.
pub fields-join : (ws : List Bytes) → AllWords ws → fields (join ws (32 ∷ [])) ≡ ws
unfolding fields join
fields-join [] h = unfold fields_from nonempty in refl
fields-join (w ∷ []) (h, _) =
    ap (fields_from 0 []) (sym (append-nil w))
    ∙ fields_from_plain [] w [] (IsWord-AllPlain w h)
    ∙ fields_from_nil w h
fields-join (w ∷ v ∷ ws) (h, hs) =
    fields_from_plain [] w (32 ∷ join (v ∷ ws) (32 ∷ [])) (IsWord-AllPlain w h)
    ∙ space_between w (join (v ∷ ws) (32 ∷ []))
    ∙ ap (λ u. u ++ fields_from 0 [] (join (v ∷ ws) (32 ∷ []))) (nonempty-IsWord w h)
    ∙ ap (λ u. w ∷ u) (fields-join (v ∷ ws) hs)

-- `sep` is no byte of the text.
abbrev pub Lacks : ℕ → Bytes → Type 0
Lacks sep [] = Unit
Lacks sep (c ∷ cs) = (c ≢ sep) × Lacks sep cs

abbrev pub AllLack : ℕ → List Bytes → Type 0
AllLack sep [] = Unit
AllLack sep (w ∷ ws) = Lacks sep w × AllLack sep ws

pub Lacks-append : (sep : ℕ) (u v : Bytes) → Lacks sep u → Lacks sep v → Lacks sep (u ++ v)
Lacks-append sep [] v h h' = h'
Lacks-append sep (c ∷ cs) v (ne, h) h' = (ne, Lacks-append sep cs v h h')

other_byte : (c sep : ℕ) → c ≢ sep → (c == sep) ≡ false
other_byte c sep ne = ground arith

split_last : (sep : ℕ) (w : Bytes) → Lacks sep w → split sep w ≡ w ∷ []
unfolding split
split_last sep [] h = refl
split_last sep (c ∷ cs) (ne, h) = rw (split_last sep cs h, other_byte c sep ne) refl

split_before :
    (sep : ℕ) (w rest : Bytes) → Lacks sep w → split sep (w ++ sep ∷ rest) ≡ w ∷ split sep rest
unfolding split
split_before sep [] rest h = ground arith
split_before sep (c ∷ cs) rest (ne, h) = rw (split_before sep cs rest h, other_byte c sep ne) refl

-- Split of texts without the separator that one each joins are the texts, when there is one.
pub split-join :
    (sep : ℕ) (w : Bytes) (ws : List Bytes)
    → AllLack sep (w ∷ ws)
    → split sep (join (w ∷ ws) (sep ∷ [])) ≡ w ∷ ws
unfolding join
split-join sep w [] (h, _) = split_last sep w h
split-join sep w (v ∷ ws) (h, hs) =
    split_before sep w (join (v ∷ ws) (sep ∷ [])) h ∙ ap (λ u. w ∷ u) (split-join sep v ws hs)
