-- ===== src/Pyext/Message.antt =====
-- What `encode` makes of a tuple of objects, `decode` takes apart again.
use libtvnet.Base.{ℕ, suc, ◌^◌, ◌<◌, ◌≡◌, refl, sym, List, [], append-nil, some, length, arith}
use libtvnet.Tvutils.{Tvutils}
use libtvnet.Buffer.{Buffer, past_end}
use libtvnet.Pickle.At.{At}
use libtvnet.Pickle.Decoder.{end_token, decode_token}
use libtvnet.Pyext.Objects.{Object, Objects, nil, cons, sequence, Python}
use libtvnet.Pyext.Decoder.{done, end_mark, decode_recurse, decode_value}
use libtvnet.Pyext.Leaves.{recurse_step}

-- one object by itself, others as a tuple
abbrev pub reply : Objects → Object
reply (cons x nil) = x
reply nil = sequence nil
reply (cons x (cons y ys)) = sequence (cons x (cons y ys))

module _ ⦃tv : Tvutils⦄ ⦃py : Python⦄ where
  module _ (junk : ℕ) where
    no_token :
        (b : Buffer)
        → b.offset ≡ b.size
        → b.size < 2 ^ 63
        → decode_token junk b ≡ some (end_token, b)
    unfolding decode_token past_end
    no_token b e small = ground arith

    -- Behind the last byte there is the end.
    pub recurse_end :
        (fuel : ℕ) (b : Buffer)
        → b.offset ≡ b.size
        → b.size < 2 ^ 63
        → decode_recurse junk (suc fuel) b ≡ done end_mark b
    unfolding decode_value
    recurse_end fuel b e small = recurse_step junk fuel b b (no_token b e small) refl

    pub whole :
        (bytes : List ℕ)
        → length bytes < 2 ^ 63
        → At (record { data_bytes = bytes; offset = 0; size = length bytes }) bytes
    whole bytes small = record {
      before = [];
      after = [];
      memory = sym (append-nil bytes);
      here = refl;
      within = omega arith;
      big = small;
    }
