-- ===== src/Client/Memcached/Tests.antt =====
-- A get of the last key and a set of the first one.
use slg.Base.{ℕ, ◌≡◌, refl, [], none, false, take}
use slg.Base.Text.{codes}
use slg.Base.Decimal.{decimal}
use slg.Client.{Client, waiting}
use slg.Client.Memcached.{request_of}

abbrev idle : ℕ → Client
idle number = record {
  number = number;
  fd = none;
  state = waiting;
  nb_requests_on_iteration = 0;
  bytes_read = 0;
  bytes_write = 0;
  errors = 0;
  content_length = 0;
  header_length = 0;
  read_hdr_buf = [];
  new_request = false;
  request_buf = codes "old old old old old";
  request_total_len = 0;
  port = 0;
  connect_in_progress = false;
  nb_connect_attempts = 0;
  total_bytes_recv = 0;
  total_resp_recv = 0;
  ct_start = record { tv_sec = 0; tv_usec = 0 };
  rt_start = record { tv_sec = 0; tv_usec = 0 };
  crt_start = record { tv_sec = 0; tv_usec = 0 };
  req_unique_id = 0;
  target = (0, 0);
}

two_texts :
    (request_of 99 9999 ≡ codes "get key9999\r\n")
    × (take 19 (request_of 109 0) ≡ codes "set key0 0 0 450\r\n ")
unfolding request_of decimal
two_texts = (refl, refl)
