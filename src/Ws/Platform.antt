-- ===== src/Ws/Platform.antt =====
-- Everything outside the repository that a WebSocket connection uses.
use xx_url.Common.{Bytes}
use xx_url.Io.{BufRead, ConnWrite}
use xx_url.Io.Delivery.{Delivers}
use xx_url.Ws.Wire.{FramePacket, HasLayout}
use xx_url.Ws.Mask.{Endian, Split}
use xx_url.Ws.Mask.Cyclic.{Inside}

pub record Platform (R : Type 0) : Type 0 where
  pub io : BufRead R
  pub out : ConnWrite R
  pub packet : FramePacket
  pub endian : Endian
  -- how `align_to_mut` splits a buffer
  pub align : Bytes → Split

-- What the source relies on, for connections that deliver their bytes.
pub record IsSound {R : Type 0} (x : Platform R) (pending : R → Bytes) : Type 0 where
  pub delivers : Delivers x.io pending
  pub layout : HasLayout x.packet
  pub aligned : (bytes : Bytes) → Inside (x.align bytes) bytes
