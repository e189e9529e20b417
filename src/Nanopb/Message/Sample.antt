-- ===== src/Nanopb/Message/Sample.antt =====
-- The descriptors of a message with a number, a submessage, a packed array and a callback field.
use league_ranker.Prelude.{ℕ, ◌-◌, ◌^◌, List, [], ◌∷◌, ◌==◌, if◌then◌else◌}
use league_ranker.Nanopb.Iter.{Field}

abbrev pub outer : List Field
outer =
    record {
      tag = 1;
      type = 0x01;
      data_offset = 0;
      size_offset = 0;
      data_size = 4;
      array_size = 0;
      ptr = 0;
    }
    ∷ record {
      tag = 2;
      type = 0x17;
      data_offset = 4;
      size_offset = 2 ^ 64 - 4;
      data_size = 4;
      array_size = 0;
      ptr = 2;
    }
    ∷ record {
      tag = 3;
      type = 0x21;
      data_offset = 4;
      size_offset = 2 ^ 64 - 4;
      data_size = 2;
      array_size = 3;
      ptr = 0;
    }
    ∷ record {
      tag = 4;
      type = 0x56;
      data_offset = 2;
      size_offset = 0;
      data_size = 16;
      array_size = 0;
      ptr = 0;
    }
    ∷ []

abbrev pub inner : List Field
inner =
    record {
      tag = 1;
      type = 0x13;
      data_offset = 0;
      size_offset = 0;
      data_size = 4;
      array_size = 0;
      ptr = 0;
    }
    ∷ []

abbrev pub tables : ℕ → List Field
tables ptr = if ptr == 1 then outer else if ptr == 2 then inner else []
