-- ===== src/Handoff/Delivered.antt =====
-- What the broker may answer to a publication (queue/rabbitmq.py), as a case distinction.
use e_commerce_agent.Base.{◌≡◌, refl}
use e_commerce_agent.Platform.{Delivery, confirmed, refused, unconfirmed}

pub data IsDelivery (d : Delivery) : Type 0 where
  delivered : d ≡ confirmed → IsDelivery d
  dropped : d ≡ refused → IsDelivery d
  unsure : d ≡ unconfirmed → IsDelivery d

pub Delivery-cases : (d : Delivery) → IsDelivery d
Delivery-cases confirmed = delivered refl
Delivery-cases refused = dropped refl
Delivery-cases unconfirmed = unsure refl
