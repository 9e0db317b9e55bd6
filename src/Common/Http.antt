-- ===== src/Common/Http.antt =====
-- The requests and answers of net/http, as far as the clients of this repository make and read them.
use threadr.Common.Maps.{Entries, insert}
use Prim.Native.String.{String}

pub record Request : Type 0 where
  pub method : String
  pub url : String
  pub body : String
  pub header : Entries

-- `req.Header.Set`.
abbrev pub set_header : String → String → Request → Request
set_header name value request = record request { header = insert name value request.header }
