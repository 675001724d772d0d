-- ===== src/MiddleProxy/Rpc/Fuel.antt =====
-- Reading a payload comes to an end. About: read_payload.
use phantom_proxy.Common.Bytes.{Bytes}
use phantom_proxy.Common.Result.{Result}
use phantom_proxy.MiddleProxy.Frame.Shrinks.{Shrinks}
